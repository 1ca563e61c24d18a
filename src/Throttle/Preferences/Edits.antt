-- ===== src/Throttle/Preferences/Edits.antt =====
-- Edits of what a tab shows leave everything that drives a locomotive alone.
use go_dcc_ex_driver.Base.{
  ◌≡◌, refl, arith, Bool, true, false, not, ◌&&◌, List, Option, none, some, get_or, ℕ, ℤ, pos_part,
  eq_ℤ_iff, Bytes, codes, Error, message, contains_key,
}
use go_dcc_ex_driver.Config.DisplayName.{validate_display_name}
use go_dcc_ex_driver.Throttle.State.{
  CabState, CabRuntime, Controller, Action, ◌>>◌, modify, fail_when,
}
use go_dcc_ex_driver.Throttle.Cabs.{runtime_of, current_cab, live_cab, closed_error}
use go_dcc_ex_driver.Throttle.Cabs.Isolation.{runtime_of-insert}
use go_dcc_ex_driver.Throttle.Functions.{valid_function, function_error}
use go_dcc_ex_driver.Throttle.Preferences.{
  fail_some, edit_cab, with_name, with_label, with_hidden, rename_cab, set_function_label,
  set_function_hidden,
}

-- What drives a locomotive: its speed, direction and functions, the modes of its buttons, what is
-- queued for it and what was sent.
pub record Driving : Type 0 where
  pub speed : ℤ
  pub direction : ℤ
  pub functions : List Bool
  pub toggle : List Bool
  pub pending : Option ℤ
  pub last_speed : ℤ
  pub last_direction : ℤ
  pub last_known : Bool
  pub last_sent : Option ℕ

abbrev pub driving : CabRuntime → Driving
driving r = record {
  speed = r.state.speed;
  direction = r.state.direction;
  functions = r.state.functions;
  toggle = r.state.toggle;
  pending = r.pending;
  last_speed = r.last_speed;
  last_direction = r.last_direction;
  last_known = r.last_known;
  last_sent = r.last_sent;
}

-- Nothing went out, and every tab is driven as before.
abbrev pub IsLocal : Controller → Controller × Option Error → Type 0
IsLocal c r =
    (r.0.trace ≡ c.trace)
    × (r.0.sender ≡ c.sender)
    × ((k : ℤ) → driving (live_cab r.0 k) ≡ driving (live_cab c k))

guard-IsLocal :
    (b : Bool) (e : Error) (k : Action) (c : Controller)
    → IsLocal c (k c)
    → IsLocal c ((fail_when b e >> k) c)
guard-IsLocal true e k c h = (refl, refl, λ j. refl)
guard-IsLocal false e k c h = h

check-IsLocal :
    (o : Option Error) (k : Action) (c : Controller)
    → IsLocal c (k c)
    → IsLocal c ((fail_some o >> k) c)
check-IsLocal (some e) k c h = (refl, refl, λ j. refl)
check-IsLocal none k c h = h

driving-edit_cab :
    (cab : ℤ) (f : CabState → CabState) (c : Controller) (k : ℤ)
    → ((r : CabRuntime) → driving (record r { state = f r.state }) ≡ driving r)
    → driving (live_cab (edit_cab cab f c) k) ≡ driving (live_cab c k)
unfolding edit_cab live_cab current_cab
driving-edit_cab cab f c k same =
    let r = runtime_of c.cabs cab in
    ground (
      arith,
      runtime_of-insert cab k (record r { state = f r.state }) c.cabs,
      eq_ℤ_iff cab k,
      same r,
    )

edit_cab-IsLocal :
    (cab : ℤ) (f : CabState → CabState) (c : Controller)
    → ((r : CabRuntime) → driving (record r { state = f r.state }) ≡ driving r)
    → IsLocal c (modify (edit_cab cab f) c)
edit_cab-IsLocal cab f c same =
    (unfold edit_cab in refl, unfold edit_cab in refl, λ k. driving-edit_cab cab f c k same)

-- The edits of a tab's name, labels and visible buttons.
pub data Edit : Type 0 where
  renames : ℤ → Bytes → Edit
  labels : ℤ → ℤ → Bytes → Edit
  hides : ℤ → ℤ → Bool → Edit

unfoldable pub edit : Edit → Action
edit (renames cab name) = rename_cab cab name
edit (labels cab n label) = set_function_label cab n label
edit (hides cab n hidden) = set_function_hidden cab n hidden

-- Renaming a tab, labelling a button and hiding one send nothing, keep the connection, and change
-- neither the speed nor the direction nor the functions nor the queued command of any tab, whether
-- the edit is accepted or refused.
pub edit-IsLocal : (e : Edit) (c : Controller) → IsLocal c (edit e c)
unfolding edit
edit-IsLocal (renames cab name) c =
    let write : Action = modify (edit_cab cab (with_name name)) in
    let checked : Action = fail_some (validate_display_name name) >> write in
    unfold rename_cab in
    guard-IsLocal (not (contains_key cab c.cabs)) closed_error checked c (
      check-IsLocal (validate_display_name name) write c
        (edit_cab-IsLocal cab (with_name name) c (λ r. unfold with_name in refl)))
edit-IsLocal (labels cab n label) c =
    let write : Action = modify (edit_cab cab (with_label n label)) in
    let checked : Action = fail_some (validate_display_name label) >> write in
    unfold set_function_label in
    guard-IsLocal (not (contains_key cab c.cabs)) closed_error
      (fail_when (not (valid_function n)) function_error >> checked) c
      (guard-IsLocal (not (valid_function n)) function_error checked c (
        check-IsLocal (validate_display_name label) write c
          (edit_cab-IsLocal cab (with_label n label) c (λ r. unfold with_label in refl))))
edit-IsLocal (hides cab n hidden) c =
    let write : Action = modify (edit_cab cab (with_hidden n hidden)) in
    let pressed = hidden && get_or (runtime_of c.cabs cab).held (pos_part n) false in
    let e = message (codes "release this function before hiding it") in
    unfold set_function_hidden in
    guard-IsLocal (not (contains_key cab c.cabs)) closed_error
      (fail_when (not (valid_function n)) function_error >> (fail_when pressed e >> write)) c
      (guard-IsLocal (not (valid_function n)) function_error (fail_when pressed e >> write) c (
        guard-IsLocal pressed e write c
          (edit_cab-IsLocal cab (with_hidden n hidden) c (λ r. unfold with_hidden in refl))))
