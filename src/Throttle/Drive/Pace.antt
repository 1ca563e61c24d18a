-- ===== src/Throttle/Drive/Pace.antt =====
-- The timer's pace: however fast the slider moves, commands for a cab are 80 milliseconds apart.
use go_dcc_ex_driver.Base.{
  ℕ, zero, suc, ◌+◌, ◌-◌, ◌*◌, ◌/◌, ◌≤◌, ◌<◌, ◌≡◌, refl, sym, ap, ◌∙◌, ◌≢◌, ◌⊎◌, inl, inr, Bool,
  true, false, List, [], ◌∷◌, Option, none, some, arith, Bool-cases, Option-cases, if◌then◌else◌, ℤ,
  pos, Bytes, Error, Result, ok, All,
}
use go_dcc_ex_driver.Base
use go_dcc_ex_driver.Protocol.Command.{encode_throttle}
use go_dcc_ex_driver.Throttle.State.{
  Wire, sent, failed, closed, Sender, Controller, ◌>>◌, modify, then_cases,
}
use go_dcc_ex_driver.Throttle.Link.{log, detach, answered, send_to, send}
use go_dcc_ex_driver.Throttle.Safety.{Outcome, delivered, offline, dropped, send-Outcome}
use go_dcc_ex_driver.Throttle.Drive.{
  is_some, queue_speed, interval, too_soon, forget, remember, send_encoded, transmit, tick_pending,
  tick_queued, tick_current, move_speed,
}

-- How many commands reached the station.
abbrev pub count_sent : List Wire → ℕ
count_sent [] = 0
count_sent (sent cmd ∷ ws) = suc (count_sent ws)
count_sent (failed cmd ∷ ws) = count_sent ws
count_sent (closed ∷ ws) = count_sent ws

answered-last_sent :
    (o : Option Error) (cmd : Bytes) (quiet : Bool) (c : Controller)
    → (answered o cmd quiet c).0.last_sent ≡ c.last_sent
unfolding answered log detach
answered-last_sent none cmd true c = refl
answered-last_sent none cmd false c = refl
answered-last_sent (some x) cmd quiet c = refl

send_to-last_sent :
    (o : Option Sender) (cmd : Bytes) (quiet : Bool) (c : Controller)
    → (send_to o cmd quiet c).0.last_sent ≡ c.last_sent
unfolding send_to
send_to-last_sent none cmd true c = refl
send_to-last_sent none cmd false c = unfold log in refl
send_to-last_sent (some s) cmd quiet c = answered-last_sent (s.answer c.trace cmd) cmd quiet c

send-last_sent :
    (cmd : Bytes) (quiet : Bool) (c : Controller) → (send cmd quiet c).0.last_sent ≡ c.last_sent
unfolding send
send-last_sent cmd quiet c = send_to-last_sent c.sender cmd quiet c

-- Either no command went out and the time of the last one stands, or one did, at this time.
abbrev Paced : ℕ → Controller → Controller → Type 0
Paced now c d =
    ((count_sent d.trace ≡ count_sent c.trace) × (d.last_sent ≡ c.last_sent))
    ⊎ ((count_sent d.trace ≡ suc (count_sent c.trace)) × (d.last_sent ≡ some now))

sent_once :
    (cmd : Bytes) (c : Controller) (r : Controller × Option Error)
    → Outcome cmd c r
    → ((r.1 ≡ none) × (count_sent r.0.trace ≡ suc (count_sent c.trace)))
      ⊎ ((r.1 ≢ none) × (count_sent r.0.trace ≡ count_sent c.trace))
sent_once cmd c r (delivered e t m s live) = inl (e, ap count_sent t)
sent_once cmd c r (offline e s t m s' live) = inr (e, ap count_sent t)
sent_once cmd c r (dropped e t s d p q) = inr (e, ap count_sent t)

transmit-Paced :
    (speed dir : ℤ) (now : ℕ) (c : Controller) → Paced now c (transmit speed dir now c).0
unfolding transmit remember
transmit-Paced speed dir now c = by_command (encode_throttle c.state.cab speed dir)
  where
    by_command :
        (m : Result Bytes) → Paced now c ((send_encoded m >> modify (remember speed dir now)) c).0
    by_command (Base.err e) = inl (refl, refl)
    by_command (ok cmd) =
        then_cases (λ r. Paced now c r.0) (send cmd false) (modify (remember speed dir now)) c
          (λ h. ground (arith, sent_once cmd c (send cmd false c) (send-Outcome cmd false c)))
          (λ e h. ground (
            arith,
            sent_once cmd c (send cmd false c) (send-Outcome cmd false c),
            send-last_sent cmd false c,
          ))

-- A round of the timer sends nothing, or sends once, 80 milliseconds after the last command or later.
Ticked : ℕ → Controller → Controller → Type 0
Ticked now c d =
    ((count_sent d.trace ≡ count_sent c.trace) × (d.last_sent ≡ c.last_sent))
    ⊎ ((count_sent d.trace ≡ suc (count_sent c.trace))
        × (d.last_sent ≡ some now)
        × (too_soon c.last_sent now ≡ false))

tick_pending-Ticked :
    (speed : ℤ) (now : ℕ) (c : Controller) → Ticked now c (tick_pending speed now c).0
unfolding tick_pending Ticked
tick_pending-Ticked speed now c =
    ground (arith, transmit-Paced speed c.state.direction now (forget c))

tick_queued-Ticked :
    (o : Option ℤ) (linked : Bool) (now : ℕ) (c : Controller)
    → Ticked now c (tick_queued o linked now c).0
unfolding tick_queued
tick_queued-Ticked (some speed) true now c = tick_pending-Ticked speed now c
tick_queued-Ticked (some speed) false now c = unfold Ticked in inl (refl, refl)
tick_queued-Ticked none linked now c = unfold Ticked in inl (refl, refl)

tick_current-Ticked : (now : ℕ) (c : Controller) → Ticked now c (tick_current now c).0
unfolding tick_current
tick_current-Ticked now c = tick_queued-Ticked c.pending (is_some c.sender) now c

-- What happens to the selected cab between two other commands: its slider moves, the timer ticks.
pub data Input : Type 0 where
  moves : ℤ → Input
  ticks : ℕ → Input

unfoldable pub step : Controller → Input → Controller
step c (moves speed) = (move_speed speed c).0
step c (ticks now) = (tick_current now c).0

unfoldable pub run : Controller → List Input → Controller
run c [] = c
run c (e ∷ es) = run (step c e) es

-- No tick is later than `end`.
abbrev pub Until : ℕ → List Input → Type 0
Until end [] = Unit
Until end (moves speed ∷ es) = Until end es
Until end (ticks now ∷ es) = (now ≤ end) × Until end es

move_speed-silent :
    (speed : ℤ) (c : Controller)
    → ((move_speed speed c).0.trace ≡ c.trace) × ((move_speed speed c).0.last_sent ≡ c.last_sent)
unfolding move_speed queue_speed
move_speed-silent speed c = ground arith

due_later :
    (now : ℕ) (c : Controller) (last : ℕ)
    → c.last_sent ≡ some last
    → too_soon c.last_sent now ≡ false
    → last + interval ≤ now
unfolding too_soon
due_later now c last h due = ground arith

run-pace :
    (c : Controller) (es : List Input) (end last : ℕ)
    → c.last_sent ≡ some last
    → last ≤ end
    → Until end es
    → count_sent (run c es).trace * interval + last ≤ count_sent c.trace * interval + end
unfolding run step move_speed Ticked
run-pace c [] end last h l u = omega arith
run-pace c (moves speed ∷ es) end last h l u =
    let (t, s) = move_speed-silent speed c in
    omega (arith, ap count_sent t, run-pace (step c (moves speed)) es end last (s ∙ h) l u)
run-pace c (ticks now ∷ es) end last h l u = elim (tick_current-Ticked now c) [
  | inl (t, s) ↦ omega (arith, t, run-pace (step c (ticks now)) es end last (s ∙ h) l u.1)
  | inr (t, s, due) ↦
      let later : last + interval ≤ now = due_later now c last h due in
      omega (arith, t, later, run-pace (step c (ticks now)) es end now s u.0 u.1)
]

-- However often the slider of a cab moves, between its last command and any later time the timer
-- sends at most one command for each 80 milliseconds that have passed.
pub run_paced :
    (c : Controller) (es : List Input) (end last : ℕ)
    → c.last_sent ≡ some last
    → last ≤ end
    → Until end es
    → count_sent (run c es).trace ≤ count_sent c.trace + (end - last) / interval
run_paced c es end last h l u = omega (arith, run-pace c es end last h l u)
