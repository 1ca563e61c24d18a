-- ===== src/Throttle/Tabs/Driving.antt =====
-- Driving keeps the tabs well-formed: no command to a locomotive opens, closes or selects a tab.
use go_dcc_ex_driver.Base.{
  ◌≡◌, refl, ◌∙◌, Bool, true, false, not, ◌&&◌, Option, none, some, List, [], ◌∷◌, ℕ, suc, arith,
  if◌then◌else◌, get_or, pos_part, ℤ, pos, eq_ℤ, ltb_ℤ, message, codes, is_in, insert,
}
use go_dcc_ex_driver.Protocol.Command.{
  encode_throttle, encode_function, encode_emergency_stop, encode_current_query,
}
use go_dcc_ex_driver.Throttle.State.{
  CabState, CabRuntime, Controller, Action, ◌>>◌, modify, fail_when,
}
use go_dcc_ex_driver.Throttle.Link.{send, command}
use go_dcc_ex_driver.Throttle.Drive.{
  check_encoded, send_encoded, queue_speed, move_speed, remember, transmit, turn, set_direction,
  is_direction, halt, stop, forget, unchanged, too_soon, is_some, tick_pending, tick_queued,
  tick_current, tick_cabs, tick, poll, drop_pending, stop_cab, drop_all, stop_all, emergency,
}
use go_dcc_ex_driver.Throttle.Cabs.{cab_states, with_cab}
use go_dcc_ex_driver.Throttle.Functions.{
  valid_function, function_error, set_mode, set_toggle, acts_as_toggle, set_held, set_function,
  functions_off, all_functions_off, bit, switch, function,
}
use go_dcc_ex_driver.Throttle.Tabs.Keys.{keys, keys-insert, contains_key-keys}
use go_dcc_ex_driver.Throttle.Tabs.Invariant.{IsWellFormed, write-Tabs}
use go_dcc_ex_driver.Throttle.Tabs.Steady.{
  IsSteady, Steady, IsSteady-trans, then-Steady, either_way, map-IsSteady, send-Steady,
  check_encoded-Steady, fail_when-Steady, send_encoded-Steady, command-Steady, with_cab-Steady,
}

pub move_speed-Steady : (speed : ℤ) → Steady (move_speed speed)
unfolding move_speed queue_speed
move_speed-Steady speed c t =
    let r = encode_throttle c.state.cab speed c.state.direction in
    let below = ltb_ℤ speed (pos 0) in
    let e = message (codes "slider speed must be 0-126") in
    let queue : Action = modify (queue_speed speed) in
    then-Steady (check_encoded r) (fail_when below e >> queue) (check_encoded-Steady r)
      (then-Steady (fail_when below e) queue (fail_when-Steady below e) (λ d u. (u, refl, refl))) c
      t

pub transmit-Steady : (speed dir : ℤ) (now : ℕ) → Steady (transmit speed dir now)
unfolding transmit remember
transmit-Steady speed dir now c t =
    let r = encode_throttle c.state.cab speed dir in
    then-Steady (send_encoded r) (modify (remember speed dir now)) (send_encoded-Steady r)
      (λ d u. (u, refl, refl)) c t

pub stop-Steady : (now : ℕ) → Steady (stop now)
unfolding stop halt
stop-Steady now c t =
    let dir = c.state.direction in
    then-Steady (transmit (pos 0) dir now) (modify halt) (transmit-Steady (pos 0) dir now)
      (λ d u. (u, refl, refl)) (forget c) t

turn-Steady : (dir : ℤ) → Steady (modify (turn dir))
unfolding turn
turn-Steady dir c t = (t, refl, refl)

pub set_direction-Steady : (dir : ℤ) (now : ℕ) → Steady (set_direction dir now)
unfolding set_direction
set_direction-Steady dir now c t =
    let go : Action = transmit c.state.speed dir now >> modify (turn dir) in
    let went : IsSteady c (go c).0 =
      then-Steady (transmit c.state.speed dir now) (modify (turn dir))
        (transmit-Steady c.state.speed dir now) (turn-Steady dir) c t in
    either_way c (not (is_direction dir))
      (c, some (message (codes "direction must be 0 (reverse) or 1 (forward)")))
      (if eq_ℤ dir c.state.direction then (c, none) else go c) (t, refl, refl)
      (either_way c (eq_ℤ dir c.state.direction) (c, none) (go c) (t, refl, refl) went)

pub emergency-Steady : Steady emergency
unfolding emergency drop_all stop_all
emergency-Steady c t =
    let m = send encode_emergency_stop false in
    let dropped : IsSteady c (drop_all c) =
      map-IsSteady drop_pending c (drop_all c) (λ r. unfold drop_pending in refl) refl refl refl
        t in
    let stop : Steady (modify stop_all) =
      λ d u. map-IsSteady stop_cab d (stop_all d) (λ r. unfold stop_cab in refl) refl refl refl u in
    IsSteady-trans c (drop_all c) ((m >> modify stop_all) (drop_all c)).0 dropped
      (then-Steady m (modify stop_all) (send-Steady encode_emergency_stop false) stop (drop_all c))

-- The record of an open cab is written, under the address that it names.
pub write-IsSteady :
    (k : ℤ) (r : CabRuntime) (c : Controller)
    → is_in k (keys c.cabs) ≡ true
    → r.state.cab ≡ k
    → IsWellFormed c
    → IsSteady c (record c { cabs = insert k r c.cabs })
write-IsSteady k r c h e t = (write-Tabs t k r h e, ground (arith, keys-insert k r c.cabs), refl)

set_held-IsSteady :
    (n : ℤ) (held : Bool) (c : Controller) → IsWellFormed c → IsSteady c (set_held n held c)
unfolding set_held
set_held-IsSteady n held c t =
    write-IsSteady c.state.cab _ c t.selected_open
      (t.keyed c.state.cab (contains_key-keys c.state.cab c.cabs ∙ t.selected_open)) t

shown-Steady :
    (toggle : Bool) (n : ℤ) (on : Bool)
    → Steady (modify (λ c. if toggle then set_function n on c else c))
unfolding set_function
shown-Steady true n on c t = (t, refl, refl)
shown-Steady false n on c t = (t, refl, refl)

switch-Steady : (n : ℤ) (pressed toggle on : Bool) → Steady (switch n pressed toggle on)
unfolding switch
switch-Steady n pressed toggle on c t =
    let r = encode_function c.state.cab n (bit on) in
    let hold : Action = modify (set_held n (pressed && not toggle)) in
    let show : Action = modify (λ c'. if toggle then set_function n on c' else c') in
    then-Steady (command r) (hold >> show) (command-Steady r)
      (then-Steady hold show (λ d u. set_held-IsSteady n (pressed && not toggle) d u)
        (λ d u. shown-Steady toggle n on d u))
      c t

pub function-Steady : (n : ℤ) (pressed : Bool) → Steady (function n pressed)
unfolding function
function-Steady n pressed c t =
    let toggle = acts_as_toggle n pressed c in
    let on = if toggle then not (get_or c.state.functions (pos_part n) false) else pressed in
    let last = switch n pressed toggle on c in
    either_way c (not (valid_function n)) (c, some function_error)
      (if toggle && not pressed then (c, none) else last) (t, refl, refl)
      (either_way c (toggle && not pressed) (c, none) last (t, refl, refl)
        (switch-Steady n pressed toggle on c t))

pub set_toggle-Steady : (n : ℤ) (on : Bool) → Steady (set_toggle n on)
unfolding set_toggle set_mode
set_toggle-Steady n on c t =
    either_way c (not (valid_function n)) (c, some function_error) (set_mode n on c, none)
      (t, refl, refl) (t, refl, refl)

tick_pending-Steady : (speed : ℤ) (now : ℕ) → Steady (tick_pending speed now)
unfolding tick_pending
tick_pending-Steady speed now c t =
    let sent = transmit speed c.state.direction now (forget c) in
    either_way c (unchanged c speed) (forget c, none)
      (if too_soon c.last_sent now then (c, none) else sent) (t, refl, refl)
      (either_way c (too_soon c.last_sent now) (c, none) sent (t, refl, refl)
        (transmit-Steady speed c.state.direction now (forget c) t))

tick_queued-Steady : (o : Option ℤ) (linked : Bool) (now : ℕ) → Steady (tick_queued o linked now)
unfolding tick_queued
tick_queued-Steady (some speed) true now = tick_pending-Steady speed now
tick_queued-Steady (some speed) false now = λ c t. (t, refl, refl)
tick_queued-Steady none linked now = λ c t. (t, refl, refl)

tick_current-Steady : (now : ℕ) → Steady (tick_current now)
unfolding tick_current
tick_current-Steady now c t = tick_queued-Steady c.pending (is_some c.sender) now c t

tick_cabs-Steady : (now : ℕ) (ss : List CabState) → Steady (tick_cabs now ss)
unfolding tick_cabs
tick_cabs-Steady now [] = λ c t. (t, refl, refl)
tick_cabs-Steady now (s ∷ ss) =
    then-Steady (with_cab s.cab (tick_current now)) (tick_cabs now ss)
      (with_cab-Steady s.cab (tick_current now) (tick_current-Steady now)) (tick_cabs-Steady now ss)

pub tick-Steady : (now : ℕ) → Steady (tick now)
unfolding tick
tick-Steady now c t = tick_cabs-Steady now (cab_states c) c t

pub poll-Steady : Steady poll
unfolding poll
poll-Steady c t =
    either_way c (c.state.poll && is_some c.sender) (send encode_current_query true c) (c, none)
      (send-Steady encode_current_query true c t) (t, refl, refl)

functions_off-Steady : (n : ℕ) (fs : List Bool) → Steady (functions_off n fs)
unfolding functions_off set_function
functions_off-Steady n [] = λ c t. (t, refl, refl)
functions_off-Steady n (true ∷ fs) =
    let off : Action = λ c. command (encode_function c.state.cab (pos n) (pos 0)) c in
    let show : Action = modify (set_function (pos n) false) in
    then-Steady (off >> show) (functions_off (suc n) fs)
      (then-Steady off show (λ c t. command-Steady _ c t) (λ c t. (t, refl, refl)))
      (functions_off-Steady (suc n) fs)
functions_off-Steady n (false ∷ fs) = functions_off-Steady (suc n) fs

pub all_functions_off-Steady : Steady all_functions_off
unfolding all_functions_off
all_functions_off-Steady c t = functions_off-Steady 0 c.state.functions c t
