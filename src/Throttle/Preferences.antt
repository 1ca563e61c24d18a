-- ===== src/Throttle/Preferences.antt =====
-- throttle/preferences.go: the tabs as they are saved, and the edits of what a tab shows.
pub mod Edits
pub mod Loading
pub mod Restore
use go_dcc_ex_driver.Base.{
  Bool, true, false, not, ◌&&◌, List, [], ◌∷◌, ◌++◌, Option, none, some, if◌then◌else◌, get_or, set,
  ℤ, pos, pos_part, Bytes, codes, trim_space, Error, message, insert, contains_key,
}
use go_dcc_ex_driver.Base
use go_dcc_ex_driver.Config.DisplayName.{validate_display_name}
use go_dcc_ex_driver.Config.Throttles.{ThrottleTab, ThrottleSettings, validate_settings}
use go_dcc_ex_driver.Throttle.State.{
  CabState, CabRuntime, new_cab, new_runtime, Controller, Action, ◌>>◌, modify, fail_when,
}
use go_dcc_ex_driver.Throttle.Cabs.{runtime_of, load_cab, cab_states, with_cab, closed_error}
use go_dcc_ex_driver.Throttle.Functions.{valid_function, function_error, set_toggle}

-- `defaultToggle`, unless the tab has modes of its own.
unfoldable pub saved_toggle : List Bool → Option (List Bool) → List Bool
saved_toggle standard none = standard
saved_toggle standard (some toggle) = toggle

-- The record of a saved tab: preferences only, at rest and forward.
unfoldable pub restored : List Bool → ThrottleTab → CabRuntime
unfolding saved_toggle
restored standard tab =
    new_runtime (record (new_cab tab.address (saved_toggle standard tab.toggle)) {
      name = tab.name;
      labels = tab.labels;
      hidden = tab.hidden;
    })

-- The loop over the saved tabs.
unfoldable pub restore_each : List ThrottleTab → Controller → Controller
unfolding restored
restore_each [] c = c
restore_each (tab ∷ tabs) c = restore_each tabs (record c {
  cabs = insert tab.address (restored c.default_toggle tab) c.cabs;
  order = c.order ++ tab.address ∷ [];
})

unfoldable pub restore_tabs : ThrottleSettings → Action
unfolding restore_each
restore_tabs settings c = elim (validate_settings settings) [
  | some e ↦ (c, some e)
  | none ↦ (
    load_cab settings.selected (restore_each settings.tabs (record c { cabs = []; order = [] })),
    none,
  )
]

unfoldable pub saved_tab : CabState → ThrottleTab
saved_tab s = record {
  address = s.cab;
  name = s.name;
  labels = s.labels;
  toggle = some s.toggle;
  hidden = s.hidden;
}

unfoldable pub tab_settings : Controller → ThrottleSettings
unfolding saved_tab
tab_settings c = record {
  version = pos 1;
  tabs = Base.map saved_tab (cab_states c);
  selected = c.state.cab;
}

abbrev pub fail_some : Option Error → Action
fail_some none c = (c, none)
fail_some (some e) c = (c, some e)

-- `c.cabs[cab] = r`, with an edit of the record that was read from there.
unfoldable pub edit_cab : ℤ → (CabState → CabState) → Controller → Controller
edit_cab cab f c =
    let r = runtime_of c.cabs cab in
    record c { cabs = insert cab (record r { state = f r.state }) c.cabs }

-- `r.state.Name = …`
unfoldable pub with_name : Bytes → CabState → CabState
with_name name s = record s { name = trim_space name }

unfoldable pub rename_cab : ℤ → Bytes → Action
unfolding edit_cab with_name
rename_cab cab name c =
    (do
      fail_when (not (contains_key cab c.cabs)) closed_error
      fail_some (validate_display_name name)
      modify (edit_cab cab (with_name name)))
      c

unfoldable pub with_label : ℤ → Bytes → CabState → CabState
with_label n label s = record s { labels = set s.labels (pos_part n) (trim_space label) }

unfoldable pub set_function_label : ℤ → ℤ → Bytes → Action
unfolding edit_cab with_label
set_function_label cab n label c =
    (do
      fail_when (not (contains_key cab c.cabs)) closed_error
      fail_when (not (valid_function n)) function_error
      fail_some (validate_display_name label)
      modify (edit_cab cab (with_label n label)))
      c

unfoldable pub with_hidden : ℤ → Bool → CabState → CabState
with_hidden n hidden s = record s { hidden = set s.hidden (pos_part n) hidden }

-- A button that is held down cannot be hidden, so that its release is still seen.
unfoldable pub set_function_hidden : ℤ → ℤ → Bool → Action
unfolding edit_cab with_hidden
set_function_hidden cab n hidden c =
    (do
      fail_when (not (contains_key cab c.cabs)) closed_error
      fail_when (not (valid_function n)) function_error
      fail_when (hidden && get_or (runtime_of c.cabs cab).held (pos_part n) false)
          (message (codes "release this function before hiding it"))
      modify (edit_cab cab (with_hidden n hidden)))
      c

-- The action that `SetFunctionToggle` queues.
unfoldable pub set_function_toggle : ℤ → ℤ → Bool → Action
set_function_toggle cab n on = with_cab cab (set_toggle n on)

-- The action that `FlipFunctionToggle` queues: the mode is read when it runs.
unfoldable pub flip_function_toggle : ℤ → ℤ → Action
flip_function_toggle cab n =
    fail_when (not (valid_function n)) function_error
    >> with_cab cab (λ c. set_toggle n (not (get_or c.state.toggle (pos_part n) false)) c)
