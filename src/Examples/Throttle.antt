-- ===== src/Examples/Throttle.antt =====
-- Tests of the throttle's modules: a controller with two tabs, addresses 3 and 7.
use go_dcc_ex_driver.Base.{
  is_in, ◌≢◌, ◌+◌, ◌-◌, ◌/◌, ◌≤◌, ◌≡◌, refl, ◌↔◌, ◌⊎◌, true, false, List, [], ◌∷◌, none, some,
  arith, ℤ, pos, eq_ℤ, eq_ℤ_iff, Bytes, codes, contains_key, lookup, eq_bytes, has_prefix, All,
  valid_utf8, length, if◌then◌else◌, message,
}
use go_dcc_ex_driver.Protocol.Command.{encode_status}
use go_dcc_ex_driver.Protocol.Message.{LocoState, loco_state, PowerState, off, on, overload}
use go_dcc_ex_driver.Throttle.State.{
  CabRuntime, Sender, Controller, new_controller, new_cab, new_runtime, no_bools, modify,
}
use go_dcc_ex_driver.Throttle.Link.{send}
use go_dcc_ex_driver.Throttle.Cabs.{runtime_of, current_cab, live_cab, with_cab}
use go_dcc_ex_driver.Throttle.Cabs.Isolation.{IsKeyed, KeepsTo, entered, with_cab_isolated}
use go_dcc_ex_driver.Throttle.Drive.{emergency, interval}
use go_dcc_ex_driver.Throttle.Drive.Pace.{Input, moves, ticks, run, count_sent, run_paced}
use go_dcc_ex_driver.Throttle.Power.{has_role, group}
use go_dcc_ex_driver.Throttle.Power.Group.{powers_of, Agreed, Any, group_iff}
use go_dcc_ex_driver.Throttle.Receive.{receive}
use go_dcc_ex_driver.Throttle.Receive.Loco.{Reported, receive_isolated}
use go_dcc_ex_driver.Throttle.Safety.{Outcome, send-Outcome, EmergencyDone, emergency_stops}
use go_dcc_ex_driver.Throttle.Tabs.Invariant.{IsWellFormed}
use go_dcc_ex_driver.Throttle.Tabs.Histories.{
  TabCall, DriveCall, attaches, adds, removes, replaces, panics, routes, ticks as ticks_at,
  perform_all, perform_all-IsWellFormed,
}
use go_dcc_ex_driver.Config.DisplayName.{
  runes, IsPrintable, validate_display_name, validate_display_name_iff,
}
use go_dcc_ex_driver.Throttle.Preferences.Edits.{hides, edit, IsLocal, edit-IsLocal}
use go_dcc_ex_driver.Throttle.Session.{
  Session, preference, posted, renames, view, flush_preferences,
}
use go_dcc_ex_driver.Throttle.Session.Shutdown.{flush_sends_nothing}
use go_dcc_ex_driver.Throttle.Session.Storage.{stored_layout, flush_stores_layout}
use go_dcc_ex_driver.Throttle.State.{closed}
use go_dcc_ex_driver.Config.DisplayName.{check_runes, breaks_line, runes_from}
use go_dcc_ex_driver.Config.Throttles.{
  ThrottleSettings, validate_settings, validate_tabs, check_labels, bad_address,
}
use go_dcc_ex_driver.Config.Throttles.Valid.{IsLayout, validate_settings_iff}
use go_dcc_ex_driver.Throttle.Preferences.{restore_tabs, tab_settings}
use go_dcc_ex_driver.Throttle.Preferences.Restore.{resolved, tab_settings-restore_tabs}

-- A connection that takes every command but an emergency stop after two others.
abbrev radio : Sender
radio = record {
  answer = λ trace cmd. elim trace [ a ∷ rest ↦ some (message (codes "lost")) | [] ↦ none ];
}

abbrev two_tabs : List (ℤ × CabRuntime)
two_tabs =
    (pos 3, new_runtime (new_cab (pos 3) no_bools))
    ∷ (pos 7, new_runtime (new_cab (pos 7) no_bools))
    ∷ []

abbrev fresh : Controller
fresh = new_controller no_bools

running : Controller
running = record fresh {
  cabs = two_tabs;
  order = pos 3 ∷ pos 7 ∷ [];
  sender = some radio;
  pending = some (pos 40);
  last_sent = some 1000;
  state = record fresh.state { cab = pos 3; connected = true; speed = pos 40 };
}

running-IsKeyed : IsKeyed running.cabs
unfolding running runtime_of lookup new_runtime new_cab
running-IsKeyed k = ground (arith, eq_ℤ_iff (pos 3) k, eq_ℤ_iff (pos 7) k)

emergency_stops_example : EmergencyDone running (emergency running)
emergency_stops_example = emergency_stops running

send-Outcome_example : Outcome encode_status running (send encode_status true running)
send-Outcome_example = send-Outcome encode_status true running

-- The other tab's speed is changed while tab 3 is selected.
hurry : Controller → Controller
hurry c = record c { state = record c.state { speed = pos 9 } }

hurry-KeepsTo : (c : Controller) → KeepsTo c (hurry c)
unfolding hurry
hurry-KeepsTo c = (refl, refl)

has_seven : contains_key (pos 7) running.cabs ≡ true
unfolding running lookup
has_seven = refl

with_cab_isolated_example :
    (live_cab (with_cab (pos 7) (modify hurry) running).0 (pos 3) ≡ (
      if eq_ℤ (pos 7) (pos 3)
      then current_cab (modify hurry (entered (pos 7) running)).0
      else live_cab running (pos 3)))
    × ((with_cab (pos 7) (modify hurry) running).0.state.cab ≡ running.state.cab)
    × ((with_cab (pos 7) (modify hurry) running).1 ≡ (modify hurry (entered (pos 7) running)).1)
with_cab_isolated_example =
    with_cab_isolated (pos 7) (pos 3) (modify hurry) running running-IsKeyed has_seven
      (hurry-KeepsTo (entered (pos 7) running))

abbrev report : LocoState
report = record {
  raw = codes "<l 7 0 140 1>";
  cab = pos 7;
  reg = pos 0;
  speed_byte = 140;
  speed = pos 11;
  direction = pos 1;
  emergency = false;
  function_mask = 1;
}

is_running : running.state.connected ≡ true
unfolding running
is_running = refl

receive_isolated_example : Reported report running (receive (some (loco_state report)) running)
receive_isolated_example = receive_isolated report running is_running running-IsKeyed has_seven

last_command : running.last_sent ≡ some 1000
unfolding running
last_command = refl

abbrev slides : List Input
slides = moves (pos 50) ∷ ticks 2000 ∷ moves (pos 60) ∷ ticks 90000000 ∷ []

run_paced_example :
    count_sent (run running slides).trace ≤ count_sent running.trace + (90000000 - 1000) / interval
run_paced_example = run_paced running slides 90000000 1000 last_command (omega arith) (omega arith)

abbrev modes : List Bytes
modes = codes "MAIN" ∷ codes "PROG" ∷ codes "MAIN_INV" ∷ []

abbrev powers : List PowerState
powers = on ∷ off ∷ overload ∷ []

group_iff_example :
    let ps = powers_of (codes "MAIN") modes powers in
    ((group modes powers (codes "MAIN") off ≡ on) ↔ Agreed on off ps)
    × ((group modes powers (codes "MAIN") off ≡ off) ↔ Agreed off off ps)
    × ((group modes powers (codes "MAIN") off ≡ overload)
        ↔ (Any overload ps ⊎ ((ps ≡ []) × (off ≡ overload))))
group_iff_example = group_iff modes powers (codes "MAIN") off

fault_shown : group modes powers (codes "MAIN") off ≡ overload
unfolding group has_role codes eq_bytes has_prefix
fault_shown = refl

-- The third command of `attach` fails and takes the connection with it; the tabs stay.
abbrev session : List TabCall
session =
    attaches radio (codes "radio")
    ∷ adds (pos 7)
    ∷ routes (pos 3) (DriveCall.moves (pos 9))
    ∷ ticks_at 5000
    ∷ panics
    ∷ removes (pos 3)
    ∷ replaces (pos 7) (pos 9)
    ∷ []

perform_all-IsWellFormed_example : IsWellFormed (perform_all session (new_controller no_bools))
perform_all-IsWellFormed_example = perform_all-IsWellFormed no_bools session

edit-IsLocal_example : IsLocal running (edit (hides (pos 7) (pos 2) true) running)
edit-IsLocal_example = edit-IsLocal (hides (pos 7) (pos 2) true) running

-- "Köf"
abbrev shunter : Bytes
shunter = 0x4b ∷ 0xc3 ∷ 0xb6 ∷ 0x66 ∷ []

validate_display_name_iff_example : (validate_display_name shunter ≡ none) ↔ (
    (valid_utf8 shunter ≡ true) × (length (runes shunter) ≤ 80) × All IsPrintable (runes shunter))
validate_display_name_iff_example = validate_display_name_iff shunter

-- A stop that was queued behind a rename when the session closes.
abbrev leaving : Session
leaving = record {
  closing = false;
  actions = preference (renames (pos 7) shunter) ∷ posted emergency ∷ [];
  updates = none;
  save_tabs = some (λ before layout. none);
  saves = [];
  finished = [];
}

leaving_stored : leaving.save_tabs ≢ none
leaving_stored h = ground arith

flush_stores_layout_example :
    let r = flush_preferences running leaving in
    stored_layout (tab_settings running) r.1.saves ≡ tab_settings r.0
flush_stores_layout_example =
    flush_stores_layout (tab_settings running) running leaving leaving_stored refl

flush_sends_nothing_example :
    let r = flush_preferences running leaving in
    ((r.0.trace ≡ running.trace) ⊎ (r.0.trace ≡ closed ∷ running.trace))
    × (r.0.sender ≡ none)
    × (r.1.actions ≡ [])
    × (r.1.closing ≡ true)
    × (r.1.updates ≡ some (view r.0))
flush_sends_nothing_example = flush_sends_nothing running leaving

-- Two saved tabs, the first with modes of its own.
abbrev layout : ThrottleSettings
layout = record {
  version = pos 1;
  tabs =
      record {
        address = pos 9;
        name = shunter;
        labels = [];
        toggle = some (true ∷ []);
        hidden = [];
      }
      ∷ record { address = pos 4; name = []; labels = []; toggle = none; hidden = [] }
      ∷ [];
  selected = pos 4;
}

layout_accepted : validate_settings layout ≡ none
unfolding validate_settings validate_tabs check_labels bad_address validate_display_name check_runes
    breaks_line runes_from valid_utf8 is_in
layout_accepted = refl

tab_settings-restore_tabs_example :
    let r = restore_tabs layout running in
    (tab_settings r.0 ≡ record layout { tabs = resolved running.default_toggle layout.tabs })
    × (r.1 ≡ none)
    × IsWellFormed r.0
    × All
        (λ t.
          ((live_cab r.0 t.address).state.speed ≡ pos 0)
          × ((live_cab r.0 t.address).pending ≡ none))
        layout.tabs
tab_settings-restore_tabs_example = tab_settings-restore_tabs layout running layout_accepted

validate_settings_iff_example : (validate_settings layout ≡ none) ↔ IsLayout layout
validate_settings_iff_example = validate_settings_iff layout
