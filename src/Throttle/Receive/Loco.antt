-- ===== src/Throttle/Receive/Loco.antt =====
-- A locomotive's state changes the record of its own tab, and of no other.
use go_dcc_ex_driver.Base.{
  ◌≡◌, refl, sym, ap, ◌∙◌, inl, inr, true, ◌++◌, codes, none, some, arith, Bool-cases,
  if◌then◌else◌, ℤ, eq_ℤ, eq_ℤ_iff, Bytes, contains_key,
}
use go_dcc_ex_driver.Protocol.Message.{LocoState, loco_state}
use go_dcc_ex_driver.Throttle.State.{CabRuntime, rx, Kind, Controller, Action}
use go_dcc_ex_driver.Throttle.Link.{log}
use go_dcc_ex_driver.Throttle.Cabs.{current_cab, live_cab, store_cab, with_cab}
use go_dcc_ex_driver.Throttle.Cabs.Isolation.{
  IsKeyed, entered, entered_cab, with_cab_isolated, live_cab-store, current_cab-load, load_cab_cab,
}
use go_dcc_ex_driver.Throttle.Safety.{log-live}
use go_dcc_ex_driver.Throttle.Receive.{
  mask_bits, receive_loco, receive_state, receive_event, receive,
}

-- What a report makes of a tab's record: its speed, direction and functions are the reported ones, no
-- speed is queued, and the reported speed counts as the last one sent.
abbrev pub reported : LocoState → CabRuntime → CabRuntime
reported v r = record r {
  state = record r.state {
    speed = v.speed;
    direction = v.direction;
    functions = mask_bits v.function_mask 0 29;
  };
  pending = none;
  last_speed = v.speed;
  last_direction = v.direction;
  last_known = true;
}

current_cab-receive :
    (v : LocoState) (c : Controller) → current_cab (receive_loco v c) ≡ reported v (current_cab c)
unfolding receive_loco current_cab
current_cab-receive v c = refl

receive_selected :
    (v : LocoState) (c : Controller) (j : ℤ)
    → v.cab ≡ c.state.cab
    → live_cab (receive_loco v c) j
      ≡ (if eq_ℤ v.cab j then reported v (live_cab c j) else live_cab c j)
unfolding live_cab receive_loco current_cab
receive_selected v c j e = ground (arith, eq_ℤ_iff j c.state.cab, eq_ℤ_iff v.cab j)

current_cab-entered :
    (cab : ℤ) (c : Controller)
    → IsKeyed c.cabs
    → contains_key cab c.cabs ≡ true
    → current_cab (entered cab c) ≡ live_cab c cab
current_cab-entered cab c keyed opened =
    current_cab-load cab (store_cab c)
      (sym (load_cab_cab cab (store_cab c)) ∙ entered_cab cab c keyed opened)
    ∙ sym (live_cab-store c cab)

receive_loco-keeps :
    (v : LocoState) (c : Controller)
    → ((receive_loco v c).state.cab ≡ c.state.cab) × ((receive_loco v c).cabs ≡ c.cabs)
unfolding receive_loco
receive_loco-keeps v c = (refl, refl)

-- What a report does to the tabs: that of its cab is as reported, the others are as they were, and the
-- same one is selected.
abbrev pub Reported : LocoState → Controller → Controller → Type 0
Reported v c d =
    ((j : ℤ) → live_cab d j ≡ (if eq_ℤ v.cab j then reported v (live_cab c j) else live_cab c j))
    × (d.state.cab ≡ c.state.cab)

receive_other :
    (v : LocoState) (c : Controller)
    → IsKeyed c.cabs
    → contains_key v.cab c.cabs ≡ true
    → Reported v c (with_cab v.cab (λ c'. (receive_loco v c', none)) c).0
receive_other v c keyed opened =
    let f : Action = λ c'. (receive_loco v c', none) in
    let keeps = receive_loco-keeps v (entered v.cab c) in
    (
      λ j.
          let (live, same, e) = with_cab_isolated v.cab j f c keyed opened keeps in
          live
          ∙ ground (
            arith,
            current_cab-receive v (entered v.cab c),
            current_cab-entered v.cab c keyed opened,
            eq_ℤ_iff v.cab j,
          ),
      (with_cab_isolated v.cab v.cab f c keyed opened keeps).1,
    )

receive_state-Reported :
    (v : LocoState) (c : Controller)
    → IsKeyed c.cabs
    → contains_key v.cab c.cabs ≡ true
    → Reported v c (receive_state v c)
unfolding receive_state
receive_state-Reported v c keyed opened = elim (Bool-cases (eq_ℤ v.cab c.state.cab)) [
  | inl e ↦
      rw e (
        (λ j. receive_selected v c j ((eq_ℤ_iff v.cab c.state.cab).0 e)),
        (receive_loco-keeps v c).0,
      )
  | inr e ↦ rw (e, opened) (receive_other v c keyed opened)
]

receive_logged :
    (v : LocoState) (c : Controller)
    → c.state.connected ≡ true
    → receive (some (loco_state v)) c ≡ receive_state v (log rx (codes "<< " ++ v.raw) c)
unfolding receive receive_event
receive_logged v c linked = ground arith

log-keeps :
    (k : Kind) (text : Bytes) (c : Controller)
    → ((log k text c).cabs ≡ c.cabs) × ((log k text c).state.cab ≡ c.state.cab)
unfolding log
log-keeps k text c = (refl, refl)

-- While the controller is connected and its map files each record under its own cab, a report about
-- an open tab, selected or not, is taken over into that tab's record and changes no other tab's; the
-- selection stays.
pub receive_isolated :
    (v : LocoState) (c : Controller)
    → c.state.connected ≡ true
    → IsKeyed c.cabs
    → contains_key v.cab c.cabs ≡ true
    → Reported v c (receive (some (loco_state v)) c)
receive_isolated v c linked keyed opened =
    let text = codes "<< " ++ v.raw in
    let (cabs, cab) = log-keeps rx text c in
    let (live, same) = receive_state-Reported v (log rx text c) (rw cabs keyed) (rw cabs opened) in
    rw (receive_logged v c linked) (
      λ j. live j ∙ ap (λ r. if eq_ℤ v.cab j then reported v r else r) (log-live rx text c j),
      same ∙ cab,
    )
