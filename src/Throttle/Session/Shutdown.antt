-- ===== src/Throttle/Session/Shutdown.antt =====
-- Nothing is sent while the session shuts down.
use go_dcc_ex_driver.Base.{
  ◌≡◌, refl, ◌∙◌, arith, inl, inr, ◌⊎◌, Bool, true, false, not, List, [], ◌∷◌, Option, none, some,
  Option-cases, Bool-cases, if◌then◌else◌, get_or, pos_part, ℤ, Bytes, codes, Error, contains_key,
}
use go_dcc_ex_driver.Config.Throttles.{ThrottleSettings}
use go_dcc_ex_driver.Throttle.State.{closed, Controller, Action}
use go_dcc_ex_driver.Throttle.Link.{log, detach}
use go_dcc_ex_driver.Throttle.Cabs.{store_cab, load_cab, with_cab}
use go_dcc_ex_driver.Throttle.Functions.{valid_function, set_mode, set_toggle}
use go_dcc_ex_driver.Throttle.Preferences.{tab_settings, set_function_toggle, flip_function_toggle}
use go_dcc_ex_driver.Throttle.Preferences.Edits.{edit, edit-IsLocal}
use go_dcc_ex_driver.Throttle.Preferences.Edits
use go_dcc_ex_driver.Throttle.Session.{
  Preference, renames, labels, toggles, flips, hides, apply, SessionAction, preference, posted,
  Session, close_session, publish, view, same_settings, log_failed, save_changed, run_action,
  finish_action, apply_action, drain, flush_preferences,
}

-- Neither controller has anything on the wire that the other has not, nor a connection.
abbrev IsSilent : Controller → Controller → Type 0
IsSilent c d = (d.trace ≡ c.trace) × (d.sender ≡ c.sender)

set_toggle-IsSilent : (n : ℤ) (on : Bool) (c : Controller) → IsSilent c (set_toggle n on c).0
unfolding set_toggle set_mode
set_toggle-IsSilent n on c = ground arith

with_cab-IsSilent :
    (cab : ℤ) (f : Action) (c : Controller)
    → ((d : Controller) → IsSilent d (f d).0)
    → IsSilent c (with_cab cab f c).0
unfolding with_cab store_cab load_cab
with_cab-IsSilent cab f c h = elim (Bool-cases (contains_key cab c.cabs)) [
  | inl e ↦ rw e (h (load_cab cab (store_cab c)))
  | inr e ↦ rw e (refl, refl)
]

apply-IsSilent : (p : Preference) (c : Controller) → IsSilent c (apply p c).0
unfolding apply
apply-IsSilent (renames cab name) c =
    unfold edit in let (t, l, k) = edit-IsLocal (Edits.renames cab name) c in (t, l)
apply-IsSilent (labels cab n label) c =
    unfold edit in let (t, l, k) = edit-IsLocal (Edits.labels cab n label) c in (t, l)
apply-IsSilent (hides cab n hidden) c =
    unfold edit in let (t, l, k) = edit-IsLocal (Edits.hides cab n hidden) c in (t, l)
apply-IsSilent (toggles cab n on) c =
    unfold set_function_toggle in
    with_cab-IsSilent cab (set_toggle n on) c (set_toggle-IsSilent n on)
apply-IsSilent (flips cab n) c =
    let flip : Action = λ d. set_toggle n (not (get_or d.state.toggle (pos_part n) false)) d in
    let quiet = with_cab-IsSilent cab flip c (λ d. set_toggle-IsSilent n _ d) in
    unfold flip_function_toggle in
    elim (Bool-cases (valid_function n)) [ inl v ↦ rw v quiet | inr v ↦ rw v (refl, refl) ]

log_failed-IsSilent :
    (prefix : Bytes) (o : Option Error) (c : Controller) → IsSilent c (log_failed prefix o c)
unfolding log_failed log
log_failed-IsSilent prefix none c = (refl, refl)
log_failed-IsSilent prefix (some e) c = (refl, refl)

-- A step of the loop: nothing goes out, and the session goes on closing with the same queue.
abbrev IsStep : Controller → Session → Controller × Session → Type 0
IsStep c s r = IsSilent c r.0 × (r.1.closing ≡ s.closing) × (r.1.actions ≡ s.actions)

save_changed-IsStep :
    (before : ThrottleSettings) (c : Controller) (s : Session)
    → IsStep c s (save_changed before c s)
unfolding save_changed
save_changed-IsStep before c s = elim (Bool-cases (same_settings before (tab_settings c))) [
  | inl e ↦ rw e ((refl, refl), refl, refl)
  | inr e ↦ elim (Option-cases s.save_tabs) [
    | inl n ↦ rw (e, n) ((refl, refl), refl, refl)
    | inr (save, n) ↦
        rw (e, n) (log_failed-IsSilent _ (save s.saves (tab_settings c)) c, refl, refl)
  ]
]

run_action-IsStep :
    (b : SessionAction) (a : Action) (c d : Controller) (s : Session)
    → IsSilent c d
    → IsSilent d (a d).0
    → IsStep c s (run_action b a d s)
unfolding run_action finish_action
run_action-IsStep b a c d s (t, l) (t', l') =
    let r = a d in
    let (t2, l2) = log_failed-IsSilent [] r.1 r.0 in
    let ((t3, l3), k3, q3) = save_changed-IsStep (tab_settings d) (log_failed [] r.1 r.0) s in
    ((t3 ∙ t2 ∙ t' ∙ t, l3 ∙ l2 ∙ l' ∙ l), k3, q3)

detach-IsSilent : (reason : Bytes) (c : Controller) → c.sender ≡ none → IsSilent c (detach reason c)
unfolding detach
detach-IsSilent reason c e = ground arith

closing-IsStep :
    (closing : Bool) (p : Preference) (c : Controller) (s : Session)
    → closing ≡ true
    → c.sender ≡ none
    → IsStep c s (
        run_action
          (preference p)
          (apply p)
          (if closing then detach (codes "Disconnected") c else c)
          s)
closing-IsStep true p c s h e =
    let reason = codes "Disconnected" in
    run_action-IsStep (preference p) (apply p) c (detach reason c) s (detach-IsSilent reason c e)
      (apply-IsSilent p (detach reason c))
closing-IsStep false p c s h e = absurd (cc)

apply_action-IsStep :
    (a : SessionAction) (c : Controller) (s : Session)
    → s.closing ≡ true
    → c.sender ≡ none
    → IsStep c s (apply_action a c s)
unfolding apply_action finish_action
apply_action-IsStep (posted a) c s h e = rw h ((refl, refl), refl, refl)
apply_action-IsStep (preference p) c s h e = closing-IsStep s.closing p c s h e

drain-IsSilent :
    (queue : List SessionAction) (c : Controller) (s : Session)
    → s.closing ≡ true
    → c.sender ≡ none
    → s.actions ≡ queue
    → IsSilent c (drain queue c s).0
      × ((drain queue c s).1.closing ≡ s.closing)
      × ((drain queue c s).1.actions ≡ [])
unfolding drain
drain-IsSilent [] c s h e p = ((refl, refl), refl, p)
drain-IsSilent (a ∷ rest) c s h e p =
    let begun = record s { actions = rest } in
    let r = apply_action a c begun in
    let ((t, l), k, q) = apply_action-IsStep a c begun h e in
    let ((t', l'), k', q') = drain-IsSilent rest r.0 r.1 (k ∙ h) (l ∙ e) q in
    ((t' ∙ t, l' ∙ l), k' ∙ k, q')

detached :
    (reason : Bytes) (c : Controller)
    → ((detach reason c).sender ≡ none)
      × (((detach reason c).trace ≡ c.trace) ⊎ ((detach reason c).trace ≡ closed ∷ c.trace))
unfolding detach
detached reason c = elim (Option-cases c.sender) [
  | inl e ↦ (refl, inl (ground arith))
  | inr (s, e) ↦ (refl, inr (ground arith))
]

-- Whatever is queued when the session closes, the flush hands no command to the station: the wire sees
-- at most the closing of the connection. Afterwards there is no connection, the queue is empty, the
-- session is closing, and the last snapshot that was published is that of the controller that is left.
pub flush_sends_nothing :
    (c : Controller) (s : Session)
    → let r = flush_preferences c s in
      ((r.0.trace ≡ c.trace) ⊎ (r.0.trace ≡ closed ∷ c.trace))
      × (r.0.sender ≡ none)
      × (r.1.actions ≡ [])
      × (r.1.closing ≡ true)
      × (r.1.updates ≡ some (view r.0))
unfolding flush_preferences close_session publish
flush_sends_nothing c s =
    let d = detach (codes "Disconnected") c in
    let (gone, wire) = detached (codes "Disconnected") c in
    let ((t, l), k, q) = drain-IsSilent s.actions d (close_session s) refl gone refl in
    (elim wire [ inl w ↦ inl (t ∙ w) | inr w ↦ inr (t ∙ w) ], l ∙ gone, q, k, refl)
