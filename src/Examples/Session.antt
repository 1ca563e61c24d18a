-- ===== src/Examples/Session.antt =====
-- A session's loop: a rename that is posted, a tick, and the end of the session.
use go_dcc_ex_driver.Base.{
  ◌≡◌, refl, ◌+◌, ◌≤◌, ◌⊎◌, arith, true, false, List, [], ◌∷◌, ◌++◌, none, some, length, pos, codes,
}
use go_dcc_ex_driver.Throttle.State.{new_controller, no_bools}
use go_dcc_ex_driver.Throttle.Session.{preference, posted, renames, view, publish}
use go_dcc_ex_driver.Throttle.Session.Loop.{
  Loop, new_loop, new_session, start, acts, ticks, Happening, rounds, asks, closes, looks,
  happen_all,
}
use go_dcc_ex_driver.Throttle.Tabs.{add_cab}
use go_dcc_ex_driver.Throttle.Tabs.Invariant.{IsWellFormed}
use go_dcc_ex_driver.Throttle.Tabs.Selecting.{add_cab-IsWellFormed}
use go_dcc_ex_driver.Throttle.Session.Loop.Tabs.{session-IsWellFormed}
use go_dcc_ex_driver.Throttle.Session.Loop.Queue.{served}
use go_dcc_ex_driver.Throttle.Session.Loop.Service.{chances, accepted_all, actions_served}
use go_dcc_ex_driver.Throttle.Session.Loop.Current.{newest, newest_is_current}

-- A rename waits.
abbrev waiting : Loop
waiting =
    new_loop (new_controller no_bools)
      (record (new_session none) { actions = preference (renames (pos 3) (codes "Shunter")) ∷ [] })

abbrev day : List Happening
day = rounds (ticks 5) ∷ looks ∷ rounds acts ∷ closes ∷ rounds acts ∷ []

actions_served_example :
    (served (happen_all day waiting).session ++ (happen_all day waiting).session.actions
      ≡ (served waiting.session ++ waiting.session.actions) ++ accepted_all day waiting)
    × (length (served waiting.session) + 1 ≤ length (served (happen_all day waiting).session))
    × (((happen_all day waiting).over ≡ false) ⊎ ((happen_all day waiting).session.actions ≡ []))
unfolding new_loop publish chances
actions_served_example = actions_served day waiting 1 refl (omega arith) (omega arith)

newest_is_current_example :
    let l = happen_all day (start no_bools none) in
    (newest l.session.updates l.shown ≡ some l.previous)
    × ((l.over ≡ true) ⊎ (l.previous ≡ view l.controller))
newest_is_current_example = newest_is_current day no_bools none

-- A tab is opened, and renamed.
abbrev opening : List Happening
opening =
    asks (posted (add_cab (pos 7)))
    ∷ asks (preference (renames (pos 7) (codes "Shunter")))
    ∷ rounds acts
    ∷ rounds acts
    ∷ []

session-IsWellFormed_example : IsWellFormed (happen_all opening (start no_bools none)).controller
session-IsWellFormed_example =
    session-IsWellFormed opening no_bools none (add_cab-IsWellFormed (pos 7), (tt, (tt, (tt, tt))))
