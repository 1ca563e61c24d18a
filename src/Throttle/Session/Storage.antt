-- ===== src/Throttle/Session/Storage.antt =====
-- throttle/session.go: that what the storage was handed last is the layout that is left.
use go_dcc_ex_driver.Base.{
  ◌≡◌, ◌≢◌, refl, sym, ap, ◌∙◌, arith, inl, inr, Bool, true, false, List, [], ◌∷◌, Option, none,
  some, Bool-cases, Option-cases, if◌then◌else◌, ℤ, eq_ℤ, eq_ℤ_iff, Bytes, codes, eq_bytes,
  eq_bytes_sound, Error, map_values, lookup-map_values, map, pos,
}
use go_dcc_ex_driver.Config.Throttles.{ThrottleTab, ThrottleSettings}
use go_dcc_ex_driver.Throttle.State.{CabRuntime, Controller, Action}
use go_dcc_ex_driver.Throttle.Link.{log, detach, detach_cab}
use go_dcc_ex_driver.Throttle.Cabs.{runtime_of, current_cab, live_cab, cab_states, cab_states_of}
use go_dcc_ex_driver.Throttle.Preferences.{saved_tab, tab_settings}
use go_dcc_ex_driver.Throttle.Session.{
  SessionAction, preference, posted, Session, apply, close_session, publish, same_bool, same_list,
  same_toggle, same_tab, same_settings, log_failed, save_changed, finish_action, run_action,
  apply_action, drain, flush_preferences,
}

same_list_sound {ℓ} :
    {A : Type ℓ} (eq : A → A → Bool)
    → ((x y : A) → eq x y ≡ true → x ≡ y)
    → (xs ys : List A) → same_list eq xs ys ≡ true
    → xs ≡ ys
unfolding same_list
same_list_sound eq h [] [] p = refl
same_list_sound eq h [] (y ∷ ys) p = ground arith
same_list_sound eq h (x ∷ xs) [] p = ground arith
same_list_sound eq h (x ∷ xs) (y ∷ ys) p = ground (arith, h x y, same_list_sound eq h xs ys)

same_bool_sound : (a b : Bool) → same_bool a b ≡ true → a ≡ b
same_bool_sound true b p = sym p
same_bool_sound false true p = p
same_bool_sound false false p = refl

same_toggle_sound : (a b : Option (List Bool)) → same_toggle a b ≡ true → a ≡ b
unfolding same_toggle
same_toggle_sound none none p = refl
same_toggle_sound (some a) (some b) p = ap some (same_list_sound same_bool same_bool_sound a b p)
same_toggle_sound none (some b) p = ground arith
same_toggle_sound (some a) none p = ground arith

same_tab_sound : (a b : ThrottleTab) → same_tab a b ≡ true → a ≡ b
unfolding same_tab
same_tab_sound a b p = ground (
  arith,
  eq_ℤ_iff a.address b.address,
  eq_bytes_sound a.name b.name,
  same_list_sound eq_bytes eq_bytes_sound a.labels b.labels,
  same_toggle_sound a.toggle b.toggle,
  same_list_sound same_bool same_bool_sound a.hidden b.hidden,
)

same_settings_sound : (s t : ThrottleSettings) → same_settings s t ≡ true → s ≡ t
unfolding same_settings
same_settings_sound s t p = ground (
  arith,
  eq_ℤ_iff s.version t.version,
  same_list_sound same_tab same_tab_sound s.tabs t.tabs,
  eq_ℤ_iff s.selected t.selected,
)

runtime_of-detach :
    (j : ℤ) (m : List (ℤ × CabRuntime))
    → (runtime_of (map_values detach_cab m) j).state ≡ (runtime_of m j).state
unfolding runtime_of detach_cab
runtime_of-detach j m = ground (arith, lookup-map_values detach_cab j m)

live_cab-detach :
    (reason : Bytes) (c : Controller) (j : ℤ)
    → (live_cab (detach reason c) j).state ≡ (live_cab c j).state
unfolding live_cab current_cab detach
live_cab-detach reason c j = elim (Bool-cases (eq_ℤ j c.state.cab)) [
  | inl e ↦ rw (e, runtime_of-detach c.state.cab c.cabs) refl
  | inr e ↦ rw (e, runtime_of-detach j c.cabs) refl
]

cab_states_of-detach :
    (reason : Bytes) (c : Controller) (order : List ℤ)
    → cab_states_of (detach reason c) order ≡ cab_states_of c order
unfolding cab_states_of
cab_states_of-detach reason c [] = refl
cab_states_of-detach reason c (j ∷ rest) =
    cc (live_cab-detach reason c j, cab_states_of-detach reason c rest)

-- The layout does not depend on the connection.
tab_settings-detach :
    (reason : Bytes) (c : Controller) → tab_settings (detach reason c) ≡ tab_settings c
unfolding tab_settings cab_states detach
tab_settings-detach reason c =
    ap (λ tabs. record { version = pos 1; tabs = map saved_tab tabs; selected = c.state.cab })
      (cab_states_of-detach reason c c.order)

cab_states_of-log :
    (prefix : Bytes) (o : Option Error) (c : Controller) (order : List ℤ)
    → cab_states_of (log_failed prefix o c) order ≡ cab_states_of c order
unfolding cab_states_of log_failed log live_cab current_cab
cab_states_of-log prefix o c [] = refl
cab_states_of-log prefix none c (j ∷ rest) = refl
cab_states_of-log prefix (some e) c (j ∷ rest) =
    ap (◌∷◌ (live_cab c j).state) (cab_states_of-log prefix (some e) c rest)

tab_settings-log :
    (prefix : Bytes) (o : Option Error) (c : Controller)
    → tab_settings (log_failed prefix o c) ≡ tab_settings c
unfolding tab_settings cab_states log_failed log
tab_settings-log prefix none c = refl
tab_settings-log prefix (some e) c =
    ap (λ tabs. record { version = pos 1; tabs = map saved_tab tabs; selected = c.state.cab })
      (cab_states_of-log prefix (some e) c c.order)

-- The layout that the storage was handed last; at first it has `begun`.
abbrev pub stored_layout : ThrottleSettings → List ThrottleSettings → ThrottleSettings
stored_layout begun [] = begun
stored_layout begun (layout ∷ older) = layout

-- The storage has the layout of the controller.
abbrev IsStored : ThrottleSettings → Controller × Session → Type 0
IsStored begun r = stored_layout begun r.1.saves ≡ tab_settings r.0

-- A step that keeps the storage up to date, and its answers.
abbrev Stores : ThrottleSettings → Session → Controller × Session → Type 0
Stores begun s r = IsStored begun r × (r.1.save_tabs ≡ s.save_tabs)

save_changed-Stores :
    (begun before : ThrottleSettings) (c : Controller) (s : Session)
    → s.save_tabs ≢ none
    → stored_layout begun s.saves ≡ before
    → Stores begun s (save_changed before c s)
unfolding save_changed
save_changed-Stores begun before c s has h =
    elim (Bool-cases (same_settings before (tab_settings c))) [
      | inl e ↦ rw e (h ∙ same_settings_sound before (tab_settings c) e, refl)
      | inr e ↦ elim (Option-cases s.save_tabs) [
        | inl n ↦ absurd (has n)
        | inr (save, n) ↦ rw (e, n) (sym (tab_settings-log _ (save s.saves (tab_settings c)) c), n)
      ]
    ]

run_action-Stores :
    (begun : ThrottleSettings) (a : SessionAction) (action : Action) (c : Controller) (s : Session)
    → s.save_tabs ≢ none
    → IsStored begun (c, s)
    → Stores begun s (run_action a action c s)
unfolding run_action finish_action
run_action-Stores begun a action c s has h =
    save_changed-Stores begun (tab_settings c) (log_failed [] (action c).1 (action c).0) s has h

either-Stores :
    (begun : ThrottleSettings) (b : Bool) (s : Session) (p q : Controller × Session)
    → Stores begun s p
    → Stores begun s q
    → Stores begun s (if b then p else q)
either-Stores begun true s p q h k = h
either-Stores begun false s p q h k = k

either-settings :
    (b : Bool) (reason : Bytes) (c : Controller)
    → tab_settings (if b then detach reason c else c) ≡ tab_settings c
either-settings true reason c = tab_settings-detach reason c
either-settings false reason c = refl

apply_action-Stores :
    (begun : ThrottleSettings) (a : SessionAction) (c : Controller) (s : Session)
    → s.save_tabs ≢ none
    → IsStored begun (c, s)
    → Stores begun s (apply_action a c s)
unfolding apply_action finish_action
apply_action-Stores begun (posted action) c s has h =
    either-Stores begun s.closing s _ (run_action (posted action) action c s) (h, refl)
      (run_action-Stores begun (posted action) action c s has h)
apply_action-Stores begun (preference p) c s has h =
    run_action-Stores begun (preference p) (apply p) _ s has
      (h ∙ sym (either-settings s.closing (codes "Disconnected") c))

drain-Stores :
    (begun : ThrottleSettings) (queue : List SessionAction) (c : Controller) (s : Session)
    → s.save_tabs ≢ none
    → IsStored begun (c, s)
    → IsStored begun (drain queue c s)
unfolding drain
drain-Stores begun [] c s has h = h
drain-Stores begun (a ∷ rest) c s has h =
    let waits = record s { actions = rest } in
    let r = apply_action a c waits in
    let (stored, same) = apply_action-Stores begun a c waits has h in
    drain-Stores begun rest r.0 r.1 (λ gone. has (sym same ∙ gone)) stored

-- In a session with a storage: if the layout that the storage was handed last, or has from the start
-- if it was handed none, is that of the controller, then it is so behind the flush too, whatever is
-- queued and whatever the storage answers.
pub flush_stores_layout :
    (begun : ThrottleSettings) (c : Controller) (s : Session)
    → s.save_tabs ≢ none
    → stored_layout begun s.saves ≡ tab_settings c
    → let r = flush_preferences c s in stored_layout begun r.1.saves ≡ tab_settings r.0
unfolding flush_preferences close_session publish
flush_stores_layout begun c s has h =
    drain-Stores begun s.actions (detach (codes "Disconnected") c) (close_session s) has
      (h ∙ sym (tab_settings-detach (codes "Disconnected") c))
