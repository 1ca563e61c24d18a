-- ===== src/Throttle/Tabs/Histories.antt =====
-- Every history of a session's operations keeps the tabs well-formed.
use go_dcc_ex_driver.Base.{
  is_in, Distinct, refl, List, [], ◌∷◌, arith, ℕ, ℤ, pos, eq_ℤ_iff, Bool, Bytes, lookup, Option,
  Error, Result,
}
use go_dcc_ex_driver.Throttle.State.{
  new_cab, new_runtime, Connection, Sender, Controller, Action, new_controller,
}
use go_dcc_ex_driver.Throttle.Link.{close}
use go_dcc_ex_driver.Throttle.Cabs.{runtime_of, with_cab}
use go_dcc_ex_driver.Throttle.Drive.{tick, poll, move_speed, set_direction, stop, emergency}
use go_dcc_ex_driver.Throttle.Functions.{all_functions_off, function, set_toggle}
use go_dcc_ex_driver.Throttle.Session.{
  Preference, renames, labels, toggles, flips, hides, apply, connect,
}
use go_dcc_ex_driver.Throttle.Tabs.{attach, select_cab, focus_cab, add_cab, remove_cab, replace_cab}
use go_dcc_ex_driver.Throttle.Tabs.Keys.{keys}
use go_dcc_ex_driver.Throttle.Tabs.Invariant.{IsWellFormed}
use go_dcc_ex_driver.Throttle.Tabs.Steady.{Steady, with_cab-Steady}
use go_dcc_ex_driver.Throttle.Tabs.Connecting.{
  detach-IsWellFormed, attach-IsWellFormed, connect-IsWellFormed,
}
use go_dcc_ex_driver.Throttle.Preferences.{restore_tabs}
use go_dcc_ex_driver.Throttle.Preferences.Restore.{restore_tabs-IsWellFormed}
use go_dcc_ex_driver.Config.Throttles.{ThrottleSettings}
use go_dcc_ex_driver.Protocol.Message.{Event}
use go_dcc_ex_driver.Throttle.Receive.{receive}
use go_dcc_ex_driver.Throttle.Tabs.Driving.{
  move_speed-Steady, set_direction-Steady, stop-Steady, emergency-Steady, function-Steady,
  set_toggle-Steady, all_functions_off-Steady, tick-Steady, poll-Steady,
}
use go_dcc_ex_driver.Throttle.Tabs.Events.{
  receive-IsSteady, rename_cab-Steady, set_function_label-Steady, set_function_hidden-Steady,
  set_function_toggle-Steady, flip_function_toggle-Steady,
}
use go_dcc_ex_driver.Throttle.Tabs.Selecting.{
  select_cab-IsWellFormed, focus_cab-IsWellFormed, add_cab-IsWellFormed,
}
use go_dcc_ex_driver.Throttle.Tabs.Closing.{remove_cab-IsWellFormed, replace_cab-IsWellFormed}

-- Commands to one locomotive: its speed, its direction, a stop, a function button that is pressed or
-- released, the mode of such a button, and all functions off.
pub data DriveCall : Type 0 where
  moves : ℤ → DriveCall
  turns : ℤ → ℕ → DriveCall
  stops : ℕ → DriveCall
  presses modes : ℤ → Bool → DriveCall
  darkens : DriveCall

unfoldable pub drive : DriveCall → Action
drive (moves speed) = move_speed speed
drive (turns dir now) = set_direction dir now
drive (stops now) = stop now
drive (presses n pressed) = function n pressed
drive (modes n on) = set_toggle n on
drive darkens = all_functions_off

drive-Steady : (d : DriveCall) → Steady (drive d)
unfolding drive
drive-Steady (moves speed) = move_speed-Steady speed
drive-Steady (turns dir now) = set_direction-Steady dir now
drive-Steady (stops now) = stop-Steady now
drive-Steady (presses n pressed) = function-Steady n pressed
drive-Steady (modes n on) = set_toggle-Steady n on
drive-Steady darkens = all_functions_off-Steady

pub apply-Steady : (p : Preference) → Steady (apply p)
unfolding apply
apply-Steady (renames cab name) = rename_cab-Steady cab name
apply-Steady (labels cab n label) = set_function_label-Steady cab n label
apply-Steady (toggles cab n on) = set_function_toggle-Steady cab n on
apply-Steady (flips cab n) = flip_function_toggle-Steady cab n
apply-Steady (hides cab n hidden) = set_function_hidden-Steady cab n hidden

-- What a session does to its controller: it connects and disconnects, restores saved tabs, opens,
-- closes, selects and reassigns tabs, drives the selected one or another one, stops all, lets the
-- timers run, hears the station and edits what a tab shows.
pub data TabCall : Type 0 where
  attaches : Sender → Bytes → TabCall
  connects : Connection → Result Sender → Option Error → TabCall
  closes : TabCall
  restores : ThrottleSettings → TabCall
  selects focuses adds removes : ℤ → TabCall
  replaces : ℤ → ℤ → TabCall
  drives : DriveCall → TabCall
  routes : ℤ → DriveCall → TabCall
  panics polls : TabCall
  ticks : ℕ → TabCall
  hears : Option Event → TabCall
  prefers : Preference → TabCall

-- What a call leaves behind, whether or not it returns an error.
unfoldable pub perform : TabCall → Controller → Controller
perform (attaches s text) c = (attach s text c).0
perform (connects o opened cancelled) c = (connect o opened cancelled c).0
perform closes c = (close c).0
perform (restores settings) c = (restore_tabs settings c).0
perform (selects k) c = (select_cab k c).0
perform (focuses k) c = (focus_cab k c).0
perform (adds k) c = (add_cab k c).0
perform (removes k) c = (remove_cab k c).0
perform (replaces old next) c = (replace_cab old next c).0
perform (drives d) c = (drive d c).0
perform (routes k d) c = (with_cab k (drive d) c).0
perform panics c = (emergency c).0
perform polls c = (poll c).0
perform (ticks now) c = (tick now c).0
perform (hears event) c = receive event c
perform (prefers p) c = (apply p c).0

unfoldable pub perform_all : List TabCall → Controller → Controller
unfolding perform
perform_all [] c = c
perform_all (call ∷ calls) c = perform_all calls (perform call c)

perform-IsWellFormed :
    (call : TabCall) (c : Controller) → IsWellFormed c → IsWellFormed (perform call c)
unfolding perform
perform-IsWellFormed (attaches s text) c t = attach-IsWellFormed s text c t
perform-IsWellFormed (connects o opened cancelled) c t = connect-IsWellFormed o opened cancelled c t
perform-IsWellFormed closes c t = unfold close in detach-IsWellFormed _ c t
perform-IsWellFormed (restores settings) c t = restore_tabs-IsWellFormed settings c t
perform-IsWellFormed (selects k) c t = select_cab-IsWellFormed k c t
perform-IsWellFormed (focuses k) c t = focus_cab-IsWellFormed k c t
perform-IsWellFormed (adds k) c t = add_cab-IsWellFormed k c t
perform-IsWellFormed (removes k) c t = remove_cab-IsWellFormed k c t
perform-IsWellFormed (replaces old next) c t = replace_cab-IsWellFormed old next c t
perform-IsWellFormed (drives d) c t = (drive-Steady d c t).0
perform-IsWellFormed (routes k d) c t = (with_cab-Steady k (drive d) (drive-Steady d) c t).0
perform-IsWellFormed panics c t = (emergency-Steady c t).0
perform-IsWellFormed polls c t = (poll-Steady c t).0
perform-IsWellFormed (ticks now) c t = (tick-Steady now c t).0
perform-IsWellFormed (hears event) c t = (receive-IsSteady event c t).0
perform-IsWellFormed (prefers p) c t = (apply-Steady p c t).0

histories_from :
    (calls : List TabCall) (c : Controller) → IsWellFormed c → IsWellFormed (perform_all calls c)
unfolding perform_all
histories_from [] c t = t
histories_from (call ∷ calls) c t =
    histories_from calls (perform call c) (perform-IsWellFormed call c t)

pub new_controller-IsWellFormed : (toggle : List Bool) → IsWellFormed (new_controller toggle)
unfolding new_controller new_cab new_runtime runtime_of lookup is_in Distinct keys
new_controller-IsWellFormed toggle = record {
  keyed = λ k. ground (arith, eq_ℤ_iff (pos 3) k);
  keys_distinct = (refl, tt);
  order_distinct = (refl, tt);
  listed = λ k. ground arith;
  selected_open = refl;
  allowed = λ k h. ground (arith, eq_ℤ_iff (pos 3) k);
}

-- After any history of connecting, disconnecting, restoring saved tabs, selecting, focusing, opening,
-- closing and reassigning tabs, of driving any of them, of emergency stops, timer rounds, polls,
-- replies of the station and edits of what a tab shows, refused and failed calls included, every
-- record is filed under its own address, no address is open or listed twice, the listed tabs are
-- exactly the open cabs, the selected cab is one of them, so that there is always a tab, and every
-- open address lies in 1 to 10293.
pub perform_all-IsWellFormed :
    (toggle : List Bool) (calls : List TabCall)
    → IsWellFormed (perform_all calls (new_controller toggle))
perform_all-IsWellFormed toggle calls =
    histories_from calls (new_controller toggle) (new_controller-IsWellFormed toggle)
