-- ===== src/Throttle/Safety.antt =====
-- What a failed command and an emergency stop leave behind, in every tab.
use go_dcc_ex_driver.Base.{
  ◌≡◌, refl, ap, ◌∙◌, ◌≢◌, inl, inr, Bool, true, false, List, ◌∷◌, Option, none, some, arith,
  Option-cases, ℤ, pos, eq_ℤ_refl, Bytes, lookup, map_values, lookup-map_values, Error,
}
use go_dcc_ex_driver.Protocol.Command.{encode_emergency_stop}
use go_dcc_ex_driver.Protocol.Message.{unreported}
use go_dcc_ex_driver.Throttle.State.{
  Kind, err, tx, CabRuntime, zero_runtime, Wire, sent, failed, closed, Sender, Controller, modify,
  then_cases,
}
use go_dcc_ex_driver.Throttle.Link.{log, detach, detach_cab, answered, send_to, send}
use go_dcc_ex_driver.Throttle.Cabs.{runtime_of, current_cab, live_cab}
use go_dcc_ex_driver.Throttle.Drive.{drop_pending, stop_cab, drop_all, stop_all, emergency}

-- No tab has a queued speed: the timer has nothing to send.
abbrev pub IsQuiet : Controller → Type 0
IsQuiet c = (k : ℤ) → (live_cab c k).pending ≡ none

abbrev pub MapQuiet : List (ℤ × CabRuntime) → Type 0
MapQuiet m = (k : ℤ) → (runtime_of m k).pending ≡ none

live-IsQuiet : (c : Controller) → c.pending ≡ none → MapQuiet c.cabs → IsQuiet c
unfolding live_cab current_cab
live-IsQuiet c p h k = ground (arith, h k)

map-quiet :
    (f : CabRuntime → CabRuntime) (m : List (ℤ × CabRuntime))
    → ((r : CabRuntime) → (f r).pending ≡ none)
    → MapQuiet (map_values f m)
unfolding runtime_of zero_runtime
map-quiet f m h k = elim (Option-cases (lookup k m)) [
  | inl e ↦ ground (arith, lookup-map_values f k m)
  | inr (r, e) ↦ ground (arith, lookup-map_values f k m, h r)
]

pub live_trace :
    (c : Controller) (t : List Wire) (j : ℤ) → live_cab (record c { trace = t }) j ≡ live_cab c j
unfolding live_cab current_cab
live_trace c t j = refl

-- A log entry changes nothing else.
pub log-live :
    (k : Kind) (text : Bytes) (c : Controller) (j : ℤ) → live_cab (log k text c) j ≡ live_cab c j
unfolding log live_cab current_cab
log-live k text c j = refl

live-stopped :
    (c : Controller)
    → c.state.speed ≡ pos 0
    → ((k : ℤ) → (runtime_of c.cabs k).state.speed ≡ pos 0)
    → (k : ℤ) → (live_cab c k).state.speed ≡ pos 0
unfolding live_cab current_cab
live-stopped c p h k = ground (arith, h k)

map-stopped :
    (f : CabRuntime → CabRuntime) (m : List (ℤ × CabRuntime))
    → ((r : CabRuntime) → (f r).state.speed ≡ pos 0)
    → (k : ℤ) → (runtime_of (map_values f m) k).state.speed ≡ pos 0
unfolding runtime_of zero_runtime
map-stopped f m h k = elim (Option-cases (lookup k m)) [
  | inl e ↦ ground (arith, lookup-map_values f k m)
  | inr (r, e) ↦ ground (arith, lookup-map_values f k m, h r)
]

pub detach-IsQuiet : (reason : Bytes) (c : Controller) → IsQuiet (detach reason c)
unfolding detach
detach-IsQuiet reason c =
    live-IsQuiet (detach reason c) refl
      (map-quiet detach_cab c.cabs (λ r. unfold detach_cab in refl))

-- The ways a command can end.
pub data Outcome (cmd : Bytes) (c : Controller) : Controller × Option Error → Type 0 where
  -- it reached the station, and the tabs are as they were
  delivered :
      {r : Controller × Option Error}
      → r.1 ≡ none
      → r.0.trace ≡ sent cmd ∷ c.trace
      → r.0.cabs ≡ c.cabs
      → r.0.sender ≡ c.sender
      → ((k : ℤ) → live_cab r.0 k ≡ live_cab c k)
      → Outcome cmd c r
  -- there was no connection, nothing was sent, and the tabs are as they were
  offline :
      {r : Controller × Option Error}
      → r.1 ≢ none
      → c.sender ≡ none
      → r.0.trace ≡ c.trace
      → r.0.cabs ≡ c.cabs
      → r.0.sender ≡ none
      → ((k : ℤ) → live_cab r.0 k ≡ live_cab c k)
      → Outcome cmd c r
  -- it failed: the connection is closed and forgotten, no power state is known, and no tab has a
  -- queued speed
  dropped :
      {r : Controller × Option Error}
      → r.1 ≢ none
      → r.0.trace ≡ closed ∷ failed cmd ∷ c.trace
      → r.0.sender ≡ none
      → r.0.state.connected ≡ false
      → (r.0.state.main_power ≡ unreported) × (r.0.state.prog_power ≡ unreported)
      → IsQuiet r.0
      → Outcome cmd c r

answered-Outcome :
    (o : Option Error) (cmd : Bytes) (quiet : Bool) (c : Controller) (s : Sender)
    → c.sender ≡ some s
    → Outcome cmd c (answered o cmd quiet c)
unfolding answered log
answered-Outcome none cmd true c s e = delivered refl refl refl refl (λ k. live_trace c _ k)
answered-Outcome none cmd false c s e =
    delivered refl refl refl refl
      (λ k. log-live tx _ (record c { trace = sent cmd ∷ c.trace }) k ∙ live_trace c _ k)
answered-Outcome (some x) cmd quiet c s e =
    dropped {r = answered (some x) cmd quiet c} (λ h. cc) (unfold detach in ground arith)
      (unfold detach in refl) (unfold detach in refl) (unfold detach in (refl, refl))
      (λ k.
        ap (λ r. r.pending)
          (log-live err _ (detach _ (record c { trace = failed cmd ∷ c.trace })) k)
        ∙ detach-IsQuiet _ (record c { trace = failed cmd ∷ c.trace }) k)

send_to-Outcome :
    (o : Option Sender) (cmd : Bytes) (quiet : Bool) (c : Controller)
    → c.sender ≡ o
    → Outcome cmd c (send_to o cmd quiet c)
unfolding send_to
send_to-Outcome none cmd true c e = offline (λ h. cc) e refl refl e (λ k. refl)
send_to-Outcome none cmd false c e =
    offline {r = send_to none cmd false c} (λ h. cc) e (unfold log in refl) (unfold log in refl)
      (unfold log in e) (λ k. log-live err _ c k)
send_to-Outcome (some s) cmd quiet c e = answered-Outcome (s.answer c.trace cmd) cmd quiet c s e

-- Every command is delivered, or not sent for want of a connection, or fails and takes the connection
-- and every queued speed with it; there is no fourth way.
pub send-Outcome : (cmd : Bytes) (quiet : Bool) (c : Controller) → Outcome cmd c (send cmd quiet c)
unfolding send
send-Outcome cmd quiet c = send_to-Outcome c.sender cmd quiet c refl

emergency-live : (c : Controller) → IsQuiet (drop_all c)
unfolding drop_all
emergency-live c =
    live-IsQuiet (drop_all c) refl
      (map-quiet drop_pending c.cabs (λ r. unfold drop_pending in refl))

-- No tab moves.
abbrev pub IsStopped : Controller → Type 0
IsStopped c = (k : ℤ) → (live_cab c k).state.speed ≡ pos 0

stop_all-IsQuiet :
    (c : Controller) → c.pending ≡ none → IsQuiet (stop_all c) × IsStopped (stop_all c)
unfolding stop_all
stop_all-IsQuiet c p = (
  live-IsQuiet (stop_all c) p (map-quiet stop_cab c.cabs (λ r. unfold stop_cab in refl)),
  live-stopped (stop_all c) refl (map-stopped stop_cab c.cabs (λ r. unfold stop_cab in refl)),
)

pending_of_quiet : (c : Controller) → IsQuiet c → c.pending ≡ none
unfolding live_cab current_cab
pending_of_quiet c h = ground (arith, h c.state.cab, eq_ℤ_refl c.state.cab)

-- What the emergency stop promises of its result.
abbrev pub EmergencyDone : Controller → Controller × Option Error → Type 0
EmergencyDone c r =
    IsQuiet r.0 × (r.1 ≡ none → IsStopped r.0 × (r.0.trace ≡ sent encode_emergency_stop ∷ c.trace))

IsQuiet-transfer :
    (c d : Controller) → ((k : ℤ) → live_cab d k ≡ live_cab c k) → IsQuiet c → IsQuiet d
IsQuiet-transfer c d same h k = ap (λ r. r.pending) (same k) ∙ h k

drop_all-trace : (c : Controller) → (drop_all c).trace ≡ c.trace
unfolding drop_all
drop_all-trace c = refl

stop_all-trace : (c : Controller) → (stop_all c).trace ≡ c.trace
unfolding stop_all
stop_all-trace c = refl

emergency_went :
    (c : Controller) (r : Controller × Option Error)
    → Outcome encode_emergency_stop (drop_all c) r
    → r.1 ≡ none
    → EmergencyDone c (stop_all r.0, none)
emergency_went c r (delivered e t m s live) ok' =
    let quiet = IsQuiet-transfer (drop_all c) r.0 live (emergency-live c) in
    let (still, stopped) = stop_all-IsQuiet r.0 (pending_of_quiet r.0 quiet) in
    (
      still,
      λ h. (
        stopped,
        stop_all-trace r.0 ∙ t ∙ ap (◌∷◌ (sent encode_emergency_stop)) (drop_all-trace c),
      ),
    )
emergency_went c r (offline e s t m s' live) ok' = absurd (e ok')
emergency_went c r (dropped e t s d p q) ok' = absurd (e ok')

emergency_failed :
    (c : Controller) (r : Controller × Option Error) (x : Error)
    → Outcome encode_emergency_stop (drop_all c) r
    → r.1 ≡ some x
    → EmergencyDone c (r.0, some x)
emergency_failed c r x (delivered e t m s live) f = cc
emergency_failed c r x (offline e s t m s' live) f =
    (IsQuiet-transfer (drop_all c) r.0 live (emergency-live c), λ h. cc)
emergency_failed c r x (dropped e t s d p q) f = (q, λ h. cc)

-- After an emergency stop no tab has a queued speed, whether or not the command reached the station;
-- if it did, every tab shows speed 0, and the command is the one that was sent.
pub emergency_stops : (c : Controller) → EmergencyDone c (emergency c)
unfolding emergency
emergency_stops c =
    let m = send encode_emergency_stop false in
    let out = send-Outcome encode_emergency_stop false (drop_all c) in
    then_cases (EmergencyDone c) m (modify stop_all) (drop_all c)
      (emergency_went c (m (drop_all c)) out) (λ x. emergency_failed c (m (drop_all c)) x out)
