-- ===== src/Throttle/Tabs/Selecting.antt =====
-- Selecting, focusing and opening a tab, on well-formed tabs.
use go_dcc_ex_driver.Base.{
  is_in, ◌≡◌, sym, ap, ◌∙◌, inl, inr, Bool, true, false, none, Bool-cases, ℤ, pos, Between, eq_ℤ,
  eq_ℤ_iff, Bytes, contains_key, ok, Result-cases,
}
use go_dcc_ex_driver.Protocol.Command.{encode_loco_request}
use go_dcc_ex_driver.Throttle.State.{info, Controller}
use go_dcc_ex_driver.Throttle.Link.{log, send_to, send}
use go_dcc_ex_driver.Throttle.Cabs.{store_cab, load_cab}
use go_dcc_ex_driver.Throttle.Drive.{is_some}
use go_dcc_ex_driver.Throttle.Tabs.{
  open_cab, switch_cab, select_encoded, select, select_cab, focus_cab, add_cab,
}
use go_dcc_ex_driver.Throttle.Tabs.Keys.{keys, contains_key-keys}
use go_dcc_ex_driver.Throttle.Tabs.Invariant.{nobody, IsWellFormed}
use go_dcc_ex_driver.Throttle.Tabs.Writes.{
  Holds, Kept-Holds, send_to-Kept, Kept-cab, store_cab-Holds, load_cab-Holds, allowed_of, log-Holds,
  open_cab-Holds, keys-store_cab, open_cab_opened,
}

-- The way into a cab that is open by then.
abbrev pub Selected : (ℤ → Bool) → ℤ → Controller → Type 0
Selected gone k d = Holds gone d × (d.state.cab ≡ k)

load-Selected :
    {gone : ℤ → Bool} (k : ℤ) (text : Bytes) (c : Controller)
    → Holds gone c
    → is_in k (keys c.cabs) ≡ true
    → Selected gone k (log info text (load_cab k c))
load-Selected k text c t h = (
  log-Holds info text (load_cab k c) (load_cab-Holds k c h t),
  unfold log load_cab in t.keyed k (contains_key-keys k c.cabs ∙ h),
)

enter_opened :
    {gone : ℤ → Bool} (k : ℤ) (text : Bytes) (c : Controller)
    → is_in k (keys c.cabs) ≡ true
    → Holds gone c
    → Selected gone k (log info text (load_cab k (open_cab k (store_cab c))))
enter_opened k text c h t =
    let there : is_in k (keys (store_cab c).cabs) ≡ true = ap (is_in k) (keys-store_cab c t) ∙ h in
    rw (open_cab_opened k (store_cab c) (contains_key-keys k (store_cab c).cabs ∙ there))
      (load-Selected k text (store_cab c) (store_cab-Holds c t) there)

enter_allowed :
    (k : ℤ) (text : Bytes) (c : Controller)
    → Between (pos 1) k (pos 10293)
    → IsWellFormed c
    → Selected nobody k (log info text (load_cab k (open_cab k (store_cab c))))
enter_allowed k text c b t =
    let (u, h) = open_cab-Holds k (store_cab c) b (store_cab-Holds c t) in
    load-Selected k text (open_cab k (store_cab c)) u h

switch_opened :
    {gone : ℤ → Bool} (k : ℤ) (pp : Bool) (c : Controller)
    → is_in k (keys c.cabs) ≡ true
    → Holds gone c
    → Selected gone k (switch_cab k pp c)
unfolding switch_cab
switch_opened k true c h t = enter_opened k _ c h t
switch_opened k false c h t = enter_opened k _ (record c { pending = none }) h t

switch_allowed :
    (k : ℤ) (pp : Bool) (c : Controller)
    → Between (pos 1) k (pos 10293)
    → IsWellFormed c
    → Selected nobody k (switch_cab k pp c)
unfolding switch_cab
switch_allowed k true c b t = enter_allowed k _ c b t
switch_allowed k false c b t = enter_allowed k _ (record c { pending = none }) b t

-- What a selection promises: the cab is the selected one, unless the address was refused.
send-Selected :
    {gone : ℤ → Bool} (k : ℤ) (cmd : Bytes) (c : Controller)
    → Selected gone k c
    → Selected gone k (send cmd false c).0
unfolding send
send-Selected k cmd c (t, e) =
    let k' = send_to-Kept c.sender cmd false c in
    (
      Kept-Holds c (send_to c.sender cmd false c).0 k' t,
      Kept-cab c (send_to c.sender cmd false c).0 k' ∙ e,
    )

select_encoded-Selected :
    {gone : ℤ → Bool} (k : ℤ) (pp : Bool) (cmd : Bytes) (c : Controller)
    → Holds gone c
    → Selected gone k (switch_cab k pp c)
    → Selected gone k (select_encoded (ok cmd) k pp c).0
unfolding select_encoded
select_encoded-Selected k pp cmd c t w = elim (Bool-cases (eq_ℤ k c.state.cab)) [
  | inl e ↦ rw e ((t, sym ((eq_ℤ_iff k c.state.cab).0 e)))
  | inr e ↦ rw e (elim (Bool-cases (is_some c.sender)) [
    | inl h ↦ rw h (send-Selected k cmd (switch_cab k pp c) w)
    | inr h ↦ rw h w
  ])
]

pub focus_opened :
    {gone : ℤ → Bool} (k : ℤ) (cmd : Bytes) (c : Controller)
    → encode_loco_request k ≡ ok cmd
    → is_in k (keys c.cabs) ≡ true
    → Holds gone c
    → Selected gone k (focus_cab k c).0
unfolding focus_cab select
focus_opened k cmd c e h t =
    rw (contains_key-keys k c.cabs ∙ h, e)
      (select_encoded-Selected k true cmd c t (switch_opened k true c h t))

pub focus_cab-IsWellFormed :
    (k : ℤ) (c : Controller) → IsWellFormed c → IsWellFormed (focus_cab k c).0
focus_cab-IsWellFormed k c t = elim (Bool-cases (contains_key k c.cabs)) [
  | inr n ↦ unfold focus_cab in rw n t
  | inl h ↦ elim (Result-cases (encode_loco_request k)) [
    | inl (cmd, e) ↦ (focus_opened k cmd c e (sym (contains_key-keys k c.cabs) ∙ h) t).0
    | inr (x, e) ↦ unfold focus_cab select select_encoded in rw (h, e) t
  ]
]

pub select_cab-IsWellFormed :
    (k : ℤ) (c : Controller) → IsWellFormed c → IsWellFormed (select_cab k c).0
unfolding select_cab select
select_cab-IsWellFormed k c t = elim (Result-cases (encode_loco_request k)) [
  | inl (cmd, e) ↦
      rw e
        (select_encoded-Selected k false cmd c t
          (switch_allowed k false c (allowed_of k cmd e) t)).0
  | inr (x, e) ↦ unfold select_encoded in rw e t
]

pub add_cab-IsWellFormed : (k : ℤ) (c : Controller) → IsWellFormed c → IsWellFormed (add_cab k c).0
unfolding add_cab
add_cab-IsWellFormed k c t = elim (Bool-cases (contains_key k c.cabs)) [
  | inl h ↦ rw h t
  | inr n ↦ elim (Result-cases (encode_loco_request k)) [
    | inl (cmd, e) ↦
        rw (n, e)
          (focus_cab-IsWellFormed k (open_cab k c) (open_cab-Holds k c (allowed_of k cmd e) t).0)
    | inr (x, e) ↦ rw (n, e) t
  ]
]
