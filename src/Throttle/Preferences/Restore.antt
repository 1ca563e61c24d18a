-- ===== src/Throttle/Preferences/Restore.antt =====
-- What restoring saved tabs makes of the controller, and what is saved of it afterwards.
use go_dcc_ex_driver.Base.{
  Error, Option-cases, inl, inr, ◌≡◌, refl, sym, ap, ◌∙◌, arith, Bool, true, List, [], ◌∷◌, map,
  none, some, All, All-imp, is_in, ℤ, pos, eq_ℤ_iff, Between, lookup, contains_key,
}
use go_dcc_ex_driver.Config.Throttles.{ThrottleTab, ThrottleSettings, validate_settings}
use go_dcc_ex_driver.Config.Throttles.Valid.{
  IsTab, IsLayout, addresses, All-unseen, validate_settings_iff,
}
use go_dcc_ex_driver.Throttle.State.{new_cab, new_runtime, Controller}
use go_dcc_ex_driver.Throttle.Cabs.{load_cab, live_cab, cab_states_of, cab_states}
use go_dcc_ex_driver.Throttle.Cabs.Isolation.{IsKeyed, live_cab-load, load_cab_cab}
use go_dcc_ex_driver.Throttle.Tabs.Keys.{keys, contains_key-keys}
use go_dcc_ex_driver.Throttle.Tabs.Invariant.{Tabs, nobody, IsWellFormed}
use go_dcc_ex_driver.Throttle.Preferences.Loading.{
  found, order-restore_each, keys-restore_each, IsKeyed-restore_each,
}
use go_dcc_ex_driver.Throttle.Preferences.{
  saved_toggle, restored, restore_each, restore_tabs, saved_tab, tab_settings,
}

-- The settings as they are saved again: a tab without modes of its own has been given the standard
-- ones.
abbrev pub resolved : List Bool → List ThrottleTab → List ThrottleTab
resolved standard [] = []
resolved standard (t ∷ ts) =
    record t { toggle = some (saved_toggle standard t.toggle) } ∷ resolved standard ts

saved_restored :
    (standard : List Bool) (c : Controller) (ts : List ThrottleTab)
    → All (λ t. live_cab c t.address ≡ restored standard t) ts
    → map saved_tab (cab_states_of c (addresses ts)) ≡ resolved standard ts
unfolding cab_states_of
saved_restored standard c [] h = refl
saved_restored standard c (t ∷ ts) (e, h) =
    rw (e, saved_restored standard c ts h) (unfold saved_tab restored new_runtime new_cab in refl)

good_addresses :
    (ts : List ThrottleTab) → All IsTab ts → All (λ a. Between (pos 1) a (pos 10293)) (addresses ts)
good_addresses [] h = tt
good_addresses (t ∷ ts) (g, h) = (g.2, good_addresses ts h)

in_range :
    (k : ℤ) (xs : List ℤ)
    → All (λ a. Between (pos 1) a (pos 10293)) xs
    → is_in k xs ≡ true
    → Between (pos 1) k (pos 10293)
unfolding is_in
in_range k [] h i = ground arith
in_range k (x ∷ xs) (b, h) i = ground (arith, eq_ℤ_iff x k, in_range k xs h)

restored_rest :
    (standard : List Bool) (t : ThrottleTab)
    → ((restored standard t).state.speed ≡ pos 0) × ((restored standard t).pending ≡ none)
unfolding restored new_runtime new_cab
restored_rest standard t = (refl, refl)

restore_tabs_valid :
    (s : ThrottleSettings) (c : Controller)
    → validate_settings s ≡ none
    → restore_tabs s c
      ≡ (load_cab s.selected (restore_each s.tabs (record c { cabs = []; order = [] })), none)
unfolding restore_tabs
restore_tabs_valid s c h = rw (h, restore_tabs)

-- The controller behind the loop, and the one that is returned.
abbrev filled : ThrottleSettings → Controller → Controller
filled s c = restore_each s.tabs (record c { cabs = []; order = [] })

module _ (s : ThrottleSettings) (c : Controller) (l : IsLayout s) where
  keys-filled : keys (filled s c).cabs ≡ addresses s.tabs
  unfolding keys
  keys-filled =
      keys-restore_each s.tabs (record c { cabs = []; order = [] }) l.distinct
        (All-unseen (addresses s.tabs))

  filled_order : (filled s c).order ≡ addresses s.tabs
  filled_order = order-restore_each s.tabs (record c { cabs = []; order = [] })

  filled-IsKeyed : IsKeyed (filled s c).cabs
  unfolding lookup
  filled-IsKeyed =
      IsKeyed-restore_each s.tabs (record c { cabs = []; order = [] }) (λ k h. ground arith)

  selected_key : contains_key s.selected (filled s c).cabs ≡ true
  selected_key =
      contains_key-keys s.selected (filled s c).cabs
      ∙ ap (is_in s.selected) keys-filled
      ∙ l.selected

  filled-Tabs : Tabs nobody (filled s c).cabs (filled s c).order s.selected
  filled-Tabs = record {
    keyed = filled-IsKeyed;
    keys_distinct = rw keys-filled l.distinct;
    order_distinct = rw filled_order l.distinct;
    listed = λ k. rw (keys-filled, filled_order) (ground arith);
    selected_open = ap (is_in s.selected) keys-filled ∙ l.selected;
    allowed = λ k h.
        in_range k (addresses s.tabs) (good_addresses s.tabs l.good)
          (sym (ap (is_in k) keys-filled) ∙ h);
  }

  pub loaded-IsWellFormed : IsWellFormed (load_cab s.selected (filled s c))
  unfolding load_cab
  loaded-IsWellFormed = rw (filled-IsKeyed s.selected selected_key) filled-Tabs

  loaded_tabs :
      All
        (λ t. live_cab (load_cab s.selected (filled s c)) t.address ≡ restored c.default_toggle t)
        s.tabs
  loaded_tabs =
      All-imp s.tabs
        (λ t e.
          live_cab-load s.selected t.address (filled s c) (filled-IsKeyed s.selected selected_key)
          ∙ e)
        (found s.tabs (record c { cabs = []; order = [] }) l.distinct)

  tab_settings-loaded :
      tab_settings (load_cab s.selected (filled s c))
      ≡ record s { tabs = resolved c.default_toggle s.tabs }
  unfolding tab_settings cab_states
  tab_settings-loaded =
      let d = load_cab s.selected (filled s c) in
      let order : d.order ≡ addresses s.tabs = unfold load_cab in filled_order in
      let tabs : map saved_tab (cab_states_of d d.order) ≡ resolved c.default_toggle s.tabs =
        ap (λ o. map saved_tab (cab_states_of d o)) order
        ∙ saved_restored c.default_toggle d s.tabs loaded_tabs in
      let selected : d.state.cab ≡ s.selected =
        load_cab_cab s.selected (filled s c) ∙ filled-IsKeyed s.selected selected_key in
      λ i. record { version = sym l.version i; tabs = tabs i; selected = selected i }

  restored_resting :
      All
        (λ t.
          let r = live_cab (load_cab s.selected (filled s c)) t.address in
          (r.state.speed ≡ pos 0) × (r.pending ≡ none))
        s.tabs
  restored_resting =
      All-imp s.tabs
        (λ t e. (
          ap (λ r. r.state.speed) e ∙ (restored_rest c.default_toggle t).0,
          ap (λ r. r.pending) e ∙ (restored_rest c.default_toggle t).1,
        ))
        loaded_tabs

-- Saved tabs that validate are restored with no error and saved again as they were, in their order and
-- with the same selection, but that a tab without modes of its own has been given the standard ones.
-- The tabs that were there before are gone, the new ones are well-formed, each of them is at rest and
-- nothing is queued for it.
pub tab_settings-restore_tabs :
    (s : ThrottleSettings) (c : Controller)
    → validate_settings s ≡ none
    → let r = restore_tabs s c in
      (tab_settings r.0 ≡ record s { tabs = resolved c.default_toggle s.tabs })
      × (r.1 ≡ none)
      × IsWellFormed r.0
      × All
          (λ t.
            ((live_cab r.0 t.address).state.speed ≡ pos 0)
            × ((live_cab r.0 t.address).pending ≡ none))
          s.tabs
tab_settings-restore_tabs s c h =
    let l = (validate_settings_iff s).0 h in
    rw (restore_tabs_valid s c h)
      (tab_settings-loaded s c l, refl, loaded-IsWellFormed s c l, restored_resting s c l)

-- Settings that do not validate change nothing.
restore_tabs_refused :
    (s : ThrottleSettings) (c : Controller) (e : Error)
    → validate_settings s ≡ some e
    → restore_tabs s c ≡ (c, some e)
unfolding restore_tabs
restore_tabs_refused s c e h = rw (h, restore_tabs)

pub restore_tabs-IsWellFormed :
    (s : ThrottleSettings) (c : Controller) → IsWellFormed c → IsWellFormed (restore_tabs s c).0
restore_tabs-IsWellFormed s c t = elim (Option-cases (validate_settings s)) [
  | inl e ↦ (tab_settings-restore_tabs s c e).2
  | inr (x, e) ↦ rw (restore_tabs_refused s c x e) t
]
