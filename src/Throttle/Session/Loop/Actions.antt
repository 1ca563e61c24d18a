-- ===== src/Throttle/Session/Loop/Actions.antt =====
-- throttle/session.go: that the actions of a session keep the tabs well-formed.
use go_dcc_ex_driver.Base.{
  Bool, true, false, List, [], ◌∷◌, Option, none, some, if◌then◌else◌, All, Option-cases, inl, inr,
  codes, Bytes, Error,
}
use go_dcc_ex_driver.Config.Throttles.{ThrottleSettings}
use go_dcc_ex_driver.Throttle.State.{Controller, Action}
use go_dcc_ex_driver.Throttle.Link.{log, detach}
use go_dcc_ex_driver.Throttle.Preferences.{tab_settings}
use go_dcc_ex_driver.Throttle.Tabs.Invariant.{IsWellFormed}
use go_dcc_ex_driver.Throttle.Tabs.Connecting.{detach-IsWellFormed}
use go_dcc_ex_driver.Throttle.Tabs.Histories.{apply-Steady}
use go_dcc_ex_driver.Throttle.Session.{
  SessionAction, preference, posted, Session, apply, log_failed, same_settings, save_changed,
  run_action, apply_action, drain,
}
use go_dcc_ex_driver.Throttle.Session.Loop.{Happening, asks}

-- What is posted keeps the tabs well-formed; a preference always does.
abbrev pub IsTabAction : SessionAction → Type 0
IsTabAction (preference p) = Unit
IsTabAction (posted action) = (c : Controller) → IsWellFormed c → IsWellFormed (action c).0

abbrev pub IsTabHappening : Happening → Type 0
IsTabHappening (asks a) = IsTabAction a
IsTabHappening _ = Unit

log_failed-IsWellFormed :
    (prefix : Bytes) (o : Option Error) (c : Controller)
    → IsWellFormed c
    → IsWellFormed (log_failed prefix o c)
unfolding log_failed log
log_failed-IsWellFormed prefix none c t = t
log_failed-IsWellFormed prefix (some e) c t = t

-- Whichever of two controllers a test picks.
picked-IsWellFormed :
    (b : Bool) (c : Controller) (s : Session) (r : Controller × Session)
    → IsWellFormed c
    → IsWellFormed r.0
    → IsWellFormed (if b then (c, s) else r).0
picked-IsWellFormed true c s r t u = t
picked-IsWellFormed false c s r t u = u

pub either-IsWellFormed :
    (b : Bool) (c d : Controller)
    → IsWellFormed c
    → IsWellFormed d
    → IsWellFormed (if b then c else d)
either-IsWellFormed true c d t u = t
either-IsWellFormed false c d t u = u

save_changed-IsWellFormed :
    (before : ThrottleSettings) (c : Controller) (s : Session)
    → IsWellFormed c
    → IsWellFormed (save_changed before c s).0
unfolding save_changed
save_changed-IsWellFormed before c s t =
    picked-IsWellFormed (same_settings before (tab_settings c)) c s _ t
      (elim (Option-cases s.save_tabs) [
        | inl none_is ↦ rw none_is t
        | inr (save, is) ↦ rw is (log_failed-IsWellFormed _ _ c t)
      ])

run_action-IsWellFormed :
    (a : SessionAction) (action : Action) (c : Controller) (s : Session)
    → IsWellFormed (action c).0
    → IsWellFormed (run_action a action c s).0
unfolding run_action
run_action-IsWellFormed a action c s t =
    save_changed-IsWellFormed _ _ s (log_failed-IsWellFormed [] (action c).1 (action c).0 t)

pub apply_action-IsWellFormed :
    (a : SessionAction) (c : Controller) (s : Session)
    → IsTabAction a
    → IsWellFormed c
    → IsWellFormed (apply_action a c s).0
unfolding apply_action
apply_action-IsWellFormed (posted action) c s h t =
    picked-IsWellFormed s.closing c _ (run_action (posted action) action c s) t
      (run_action-IsWellFormed (posted action) action c s (h c t))
apply_action-IsWellFormed (preference p) c s h t =
    let gone = if s.closing then detach (codes "Disconnected") c else c in
    run_action-IsWellFormed (preference p) (apply p) gone s
      (apply-Steady p gone (either-IsWellFormed s.closing _ c (detach-IsWellFormed _ c t) t)).0

pub drain-IsWellFormed :
    (queue : List SessionAction) (c : Controller) (s : Session)
    → All IsTabAction queue
    → IsWellFormed c
    → IsWellFormed (drain queue c s).0
unfolding drain
drain-IsWellFormed [] c s h t = t
drain-IsWellFormed (a ∷ rest) c s h t =
    let begun = record s { actions = rest } in
    let r = apply_action a c begun in
    drain-IsWellFormed rest r.0 r.1 h.1 (apply_action-IsWellFormed a c begun h.0 t)
