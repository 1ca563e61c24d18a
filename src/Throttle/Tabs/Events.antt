-- ===== src/Throttle/Tabs/Events.antt =====
-- Replies of the station and edits of what a tab shows open, close and select no tab.
use go_dcc_ex_driver.Base.{
  codes, ◌++◌, message, ◌≡◌, refl, sym, ◌∙◌, Bool, true, false, not, ◌&&◌, ◌||◌, Option, none, some,
  arith, if◌then◌else◌, get_or, pos_part, ℤ, Bytes, Error, eq_ℤ, contains_key,
}
use go_dcc_ex_driver.Config.DisplayName.{validate_display_name}
use go_dcc_ex_driver.Protocol.Message.{
  raw_frame, Event, LocoState, loco_state, track_power, track_mode, current_info, cv_result,
  address_result, version_info, command_rejected, unknown, TrackPower, TrackMode,
}
use go_dcc_ex_driver.Throttle.State.{
  Kind, rx, CabState, Controller, Action, ◌>>◌, modify, fail_when,
}
use go_dcc_ex_driver.Throttle.Link.{log}
use go_dcc_ex_driver.Throttle.Cabs.{runtime_of, with_cab, closed_error}
use go_dcc_ex_driver.Throttle.Power.{update_track_power, note_power, receive_power}
use go_dcc_ex_driver.Throttle.Receive.{
  receive_loco, receive_state, receive_mode, receive_current, receive_cv, receive_address,
  receive_event, receive, is_current,
}
use go_dcc_ex_driver.Throttle.Functions.{set_toggle, valid_function, function_error}
use go_dcc_ex_driver.Throttle.Preferences.{
  fail_some, edit_cab, with_name, with_label, with_hidden, rename_cab, set_function_label,
  set_function_hidden, set_function_toggle, flip_function_toggle,
}
use go_dcc_ex_driver.Throttle.Tabs.Keys.{contains_key-keys}
use go_dcc_ex_driver.Throttle.Tabs.Invariant.{IsWellFormed}
use go_dcc_ex_driver.Throttle.Tabs.Steady.{
  IsSteady, Steady, IsSteady-trans, then-Steady, fail_when-Steady, with_cab-Steady,
}
use go_dcc_ex_driver.Throttle.Tabs.Driving.{write-IsSteady, set_toggle-Steady}

either_state :
    (c : Controller) (b : Bool) (x y : Controller)
    → IsSteady c x
    → IsSteady c y
    → IsSteady c (if b then x else y)
either_state c true x y t u = t
either_state c false x y t u = u

receive_loco-Steady : (v : LocoState) → Steady (λ c. (receive_loco v c, none))
unfolding receive_loco
receive_loco-Steady v c t = (t, refl, refl)

receive_state-IsSteady :
    (v : LocoState) (c : Controller) → IsWellFormed c → IsSteady c (receive_state v c)
unfolding receive_state
receive_state-IsSteady v c t =
    let routed = with_cab v.cab (λ c'. (receive_loco v c', none)) c in
    let routed_steady : IsSteady c routed.0 =
      with_cab-Steady v.cab (λ c'. (receive_loco v c', none)) (receive_loco-Steady v) c t in
    either_state c (eq_ℤ v.cab c.state.cab) (receive_loco v c)
      (if contains_key v.cab c.cabs then routed.0 else c) (receive_loco-Steady v c t)
      (either_state c (contains_key v.cab c.cabs) routed.0 c routed_steady (t, refl, refl))

receive_power-IsSteady :
    (v : TrackPower) (c : Controller) → IsWellFormed c → IsSteady c (receive_power v c)
unfolding receive_power update_track_power note_power
receive_power-IsSteady v c t = ground (arith, t)

receive_mode-IsSteady :
    (v : TrackMode) (c : Controller) → IsWellFormed c → IsSteady c (receive_mode v c)
unfolding receive_mode update_track_power
receive_mode-IsSteady v c t = ground (arith, t)

receive_event-IsSteady :
    (e : Event) (c : Controller) → IsWellFormed c → IsSteady c (receive_event e c)
unfolding receive_event
receive_event-IsSteady (loco_state v) c t = receive_state-IsSteady v c t
receive_event-IsSteady (track_power v) c t = receive_power-IsSteady v (record c { state = _ }) t
receive_event-IsSteady (track_mode v) c t = receive_mode-IsSteady v c t
receive_event-IsSteady (current_info v) c t = unfold receive_current in ground (arith, t)
receive_event-IsSteady (version_info raw text) c t = (t, refl, refl)
receive_event-IsSteady (cv_result v) c t = unfold receive_cv in ground (arith, t)
receive_event-IsSteady (address_result v) c t = unfold receive_address in ground (arith, t)
receive_event-IsSteady (command_rejected raw) c t = (t, refl, refl)
receive_event-IsSteady (unknown raw) c t = (t, refl, refl)

log-IsSteady :
    (k : Kind) (text : Bytes) (c : Controller) → IsWellFormed c → IsSteady c (log k text c)
unfolding log
log-IsSteady k text c t = (t, refl, refl)

pub receive-IsSteady :
    (o : Option Event) (c : Controller) → IsWellFormed c → IsSteady c (receive o c)
unfolding receive
receive-IsSteady none c t = (t, refl, refl)
receive-IsSteady (some e) c t =
    let heard =
      if not (is_current e) || not c.state.poll then log rx (codes "<< " ++ raw_frame e) c else c in
    let logged : IsSteady c heard =
      either_state c (not (is_current e) || not c.state.poll)
        (log rx (codes "<< " ++ raw_frame e) c) c (log-IsSteady rx (codes "<< " ++ raw_frame e) c t)
        (t, refl, refl) in
    either_state c (not c.state.connected) c (receive_event e heard) (t, refl, refl)
      (IsSteady-trans c heard (receive_event e heard) logged (receive_event-IsSteady e heard))

-- Tests that return early leave the tabs alone.
checked :
    (o : Option Error) (k : Action) (c : Controller)
    → IsWellFormed c
    → IsSteady c (k c).0
    → IsSteady c ((fail_some o >> k) c).0
checked none k c t h = h
checked (some e) k c t h = (t, refl, refl)

refused :
    (b : Bool) (e : Error) (k : Action) (c : Controller)
    → IsWellFormed c
    → (b ≡ false → IsSteady c (k c).0)
    → IsSteady c ((fail_when b e >> k) c).0
refused true e k c t h = (t, refl, refl)
refused false e k c t h = h refl

edit-IsSteady :
    (cab : ℤ) (f : CabState → CabState) (c : Controller)
    → ((s : CabState) → (f s).cab ≡ s.cab)
    → not (contains_key cab c.cabs) ≡ false
    → IsWellFormed c
    → IsSteady c (edit_cab cab f c)
unfolding edit_cab
edit-IsSteady cab f c same h t =
    let there : contains_key cab c.cabs ≡ true = ground arith in
    write-IsSteady cab _ c (sym (contains_key-keys cab c.cabs) ∙ there)
      (same (runtime_of c.cabs cab).state ∙ t.keyed cab there) t

pub rename_cab-Steady : (cab : ℤ) (name : Bytes) → Steady (rename_cab cab name)
unfolding rename_cab
rename_cab-Steady cab name c t =
    let write : Action = modify (edit_cab cab (with_name name)) in
    refused (not (contains_key cab c.cabs)) closed_error
      (fail_some (validate_display_name name) >> write) c t
      (λ h.
        checked (validate_display_name name) write c t
          (edit-IsSteady cab (with_name name) c (λ s. unfold with_name in refl) h t))

pub set_function_label-Steady :
    (cab n : ℤ) (label : Bytes) → Steady (set_function_label cab n label)
unfolding set_function_label
set_function_label-Steady cab n label c t =
    let write : Action = modify (edit_cab cab (with_label n label)) in
    let check : Action = fail_some (validate_display_name label) >> write in
    refused (not (contains_key cab c.cabs)) closed_error
      (fail_when (not (valid_function n)) function_error >> check) c t
      (λ h. refused (not (valid_function n)) function_error check c t (λ g.
        checked (validate_display_name label) write c t
          (edit-IsSteady cab (with_label n label) c (λ s. unfold with_label in refl) h t)))

pub set_function_hidden-Steady :
    (cab n : ℤ) (hidden : Bool) → Steady (set_function_hidden cab n hidden)
unfolding set_function_hidden
set_function_hidden-Steady cab n hidden c t =
    let write : Action = modify (edit_cab cab (with_hidden n hidden)) in
    let pressed = hidden && get_or (runtime_of c.cabs cab).held (pos_part n) false in
    let e = message (codes "release this function before hiding it") in
    refused (not (contains_key cab c.cabs)) closed_error
      (fail_when (not (valid_function n)) function_error >> (fail_when pressed e >> write)) c t
      (λ h. refused (not (valid_function n)) function_error (fail_when pressed e >> write) c t (λ g.
        refused pressed e write c t
          (λ p. edit-IsSteady cab (with_hidden n hidden) c (λ s. unfold with_hidden in refl) h t)))

pub set_function_toggle-Steady : (cab n : ℤ) (on : Bool) → Steady (set_function_toggle cab n on)
unfolding set_function_toggle
set_function_toggle-Steady cab n on = with_cab-Steady cab (set_toggle n on) (set_toggle-Steady n on)

pub flip_function_toggle-Steady : (cab n : ℤ) → Steady (flip_function_toggle cab n)
unfolding flip_function_toggle
flip_function_toggle-Steady cab n =
    let flip : Action = λ c. set_toggle n (not (get_or c.state.toggle (pos_part n) false)) c in
    then-Steady (fail_when (not (valid_function n)) function_error) (with_cab cab flip)
      (fail_when-Steady (not (valid_function n)) function_error)
      (with_cab-Steady cab flip (λ c t. set_toggle-Steady n _ c t))
