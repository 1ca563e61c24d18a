-- ===== src/Throttle/Session/Loop/Tabs.antt =====
-- throttle/session.go: that the tabs of a running session stay well-formed.
use go_dcc_ex_driver.Base.{
  ◌≡◌, refl, sym, subst, Bool, true, false, List, [], ◌∷◌, Option, none, some, if◌then◌else◌, All,
  All-append, ltb, length, codes, Error,
}
use go_dcc_ex_driver.Throttle.State.{Controller, new_controller}
use go_dcc_ex_driver.Throttle.Link.{log, detach, close}
use go_dcc_ex_driver.Throttle.Preferences.{restore_tabs}
use go_dcc_ex_driver.Throttle.Preferences.Restore.{restore_tabs-IsWellFormed}
use go_dcc_ex_driver.Throttle.Tabs.Invariant.{IsWellFormed}
use go_dcc_ex_driver.Throttle.Tabs.Connecting.{detach-IsWellFormed}
use go_dcc_ex_driver.Throttle.Tabs.Driving.{tick-Steady, poll-Steady}
use go_dcc_ex_driver.Throttle.Tabs.Events.{receive-IsSteady}
use go_dcc_ex_driver.Throttle.Tabs.Histories.{new_controller-IsWellFormed}
use go_dcc_ex_driver.Throttle.Session.{
  View, SessionAction, Session, close_session, enqueue, publish, flush_preferences,
}
use go_dcc_ex_driver.Throttle.Session.Loop.{
  Occasion, acts, polls, ends, ticks, breaks, garbles, hears, Loop, TabPersistence, new_loop,
  with_layout, start, handle, publish_changed, publish_unless, finish, round, raced, Happening,
  rounds, races, asks, closes, looks, happen, happen_all, take_action, unless_over, unless_closing,
  lose, take_update,
}
use go_dcc_ex_driver.Throttle.Session.Loop.Queue.{apply_action-KeepsChannels, drain-served}
use go_dcc_ex_driver.Throttle.Session.Loop.Actions.{
  IsTabAction, IsTabHappening, either-IsWellFormed, apply_action-IsWellFormed, drain-IsWellFormed,
}

-- The tabs are well-formed, and every action that waits keeps them so.
abbrev IsSound : Loop → Type 0
IsSound l = IsWellFormed l.controller × All IsTabAction l.session.actions

take_action-IsSound :
    (queue : List SessionAction) (l : Loop)
    → All IsTabAction queue
    → IsSound l
    → IsSound (take_action queue l)
unfolding take_action
take_action-IsSound [] l h t = t
take_action-IsSound (a ∷ rest) l h t =
    let s = record l.session { actions = rest } in
    (
      apply_action-IsWellFormed a l.controller s h.0 t.0,
      subst (All IsTabAction) (sym (apply_action-KeepsChannels a l.controller s).0) h.1,
    )

handle-IsSound : (o : Occasion) (l : Loop) → IsSound l → IsSound (handle o l)
unfolding handle unless_closing lose log
handle-IsSound acts l t = take_action-IsSound l.session.actions l t.1 t
handle-IsSound (ticks now) l t = (
  either-IsWellFormed l.session.closing l.controller _ t.0 (tick-Steady now l.controller t.0).0,
  t.1,
)
handle-IsSound polls l t =
    (either-IsWellFormed l.session.closing l.controller _ t.0 (poll-Steady l.controller t.0).0, t.1)
handle-IsSound ends l t = (detach-IsWellFormed _ l.controller t.0, t.1)
handle-IsSound (breaks e) l t = (detach-IsWellFormed _ l.controller t.0, t.1)
handle-IsSound (garbles e) l t = t
handle-IsSound (hears e) l t = ((receive-IsSteady (some e) l.controller t.0).0, t.1)

publish-IsSound :
    {next previous : View} (d : Dec (next ≡ previous)) (l : Loop)
    → IsSound l
    → IsSound (publish_unless d l)
unfolding publish_unless publish
publish-IsSound (yes same) l t = t
publish-IsSound (no changed) l t = t

finish-IsSound : (l : Loop) → IsSound l → IsSound (finish l)
unfolding finish flush_preferences publish close_session close
finish-IsSound l t =
    let s = close_session l.session in
    let gone = detach (codes "Disconnected") l.controller in
    (
      detach-IsWellFormed _ _ (
          drain-IsWellFormed l.session.actions gone s t.1 (detach-IsWellFormed _ l.controller t.0)),
      subst (All IsTabAction) (sym (drain-served l.session.actions gone s refl).1) tt,
    )

round-IsSound : (b : Bool) (o : Occasion) (l : Loop) → IsSound l → IsSound (round b o l)
unfolding round publish_changed
round-IsSound true o l t = finish-IsSound l t
round-IsSound false o l t = publish-IsSound _ (handle o l) (handle-IsSound o l t)

raced-IsSound : (b : Bool) (o : Occasion) (l : Loop) → IsSound l → IsSound (raced b o l)
unfolding raced publish_changed close_session
raced-IsSound true o l t = finish-IsSound l t
raced-IsSound false o l t =
    let shut = record l { session = close_session l.session } in
    publish-IsSound _ (handle o shut) (handle-IsSound o shut t)

over-IsSound :
    (b : Bool) (l next : Loop) → IsSound l → IsSound next → IsSound (unless_over b l next)
unfolding unless_over
over-IsSound true l next t u = t
over-IsSound false l next t u = u

looks-IsSound : (o : Option View) (l : Loop) → IsSound l → IsSound (take_update o l)
unfolding take_update
looks-IsSound none l t = t
looks-IsSound (some v) l t = t

either-IsTabAction :
    (b : Bool) (x y : Session × Option Error)
    → All IsTabAction x.0.actions
    → All IsTabAction y.0.actions
    → All IsTabAction (if b then x else y).0.actions
either-IsTabAction true x y h k = h
either-IsTabAction false x y h k = k

enqueue-IsTabAction :
    (a : SessionAction) (s : Session)
    → IsTabAction a
    → All IsTabAction s.actions
    → All IsTabAction (enqueue a s).0.actions
unfolding enqueue
enqueue-IsTabAction a s h k = either-IsTabAction s.closing _ _ k (
    either-IsTabAction (ltb (length s.actions) 128) _ _
      (All-append IsTabAction s.actions (a ∷ []) k (h, tt)) k)

happen-IsSound : (h : Happening) (l : Loop) → IsTabHappening h → IsSound l → IsSound (happen h l)
unfolding happen close_session
happen-IsSound (rounds o) l h t =
    over-IsSound l.over l (round l.session.closing o l) t (round-IsSound l.session.closing o l t)
happen-IsSound (races o) l h t =
    over-IsSound l.over l (raced l.session.closing o l) t (raced-IsSound l.session.closing o l t)
happen-IsSound (asks a) l h t = (t.0, enqueue-IsTabAction a l.session h t.1)
happen-IsSound closes l h t = t
happen-IsSound looks l h t = looks-IsSound l.session.updates l t

all-IsSound :
    (hs : List Happening) (l : Loop) → All IsTabHappening hs → IsSound l → IsSound (happen_all hs l)
unfolding happen_all
all-IsSound [] l h t = t
all-IsSound (x ∷ hs) l h t = all-IsSound hs (happen x l) h.1 (happen-IsSound x l h.0 t)

layout-IsSound :
    (tabs : TabPersistence) (r : Controller × Option Error)
    → IsWellFormed r.0
    → IsSound (with_layout tabs r)
unfolding with_layout new_loop publish log
layout-IsSound tabs (c, none) t = (t, tt)
layout-IsSound tabs (c, some e) t = (t, tt)

start-IsSound : (toggle : List Bool) (tabs : Option TabPersistence) → IsSound (start toggle tabs)
unfolding start new_loop publish
start-IsSound toggle none = (new_controller-IsWellFormed toggle, tt)
start-IsSound toggle (some tabs) =
    let c = new_controller toggle in
    layout-IsSound tabs (restore_tabs tabs.initial c)
      (restore_tabs-IsWellFormed tabs.initial c (new_controller-IsWellFormed toggle))

-- In every state of a session, however it was started, whichever timers, replies and failures its loop
-- received and whatever views did meanwhile, the tabs are well-formed: every record is filed under its
-- own address, no address is open or listed twice, the listed tabs are exactly the open cabs, the
-- selected cab is one of them, and every open address lies in 1 to 10293. This needs only that each
-- posted action keeps well-formed tabs so; the preferences do.
pub session-IsWellFormed :
    (hs : List Happening) (toggle : List Bool) (tabs : Option TabPersistence)
    → All IsTabHappening hs
    → IsWellFormed (happen_all hs (start toggle tabs)).controller
session-IsWellFormed hs toggle tabs h =
    (all-IsSound hs (start toggle tabs) h (start-IsSound toggle tabs)).0
