-- ===== src/Throttle/Session/Loop/Current.antt =====
-- throttle/session.go: that a view is never left with an old snapshot.
use go_dcc_ex_driver.Base.{
  Error, ◌≡◌, refl, sym, ap, ◌∙◌, arith, ◌⊎◌, inl, inr, Bool, true, false, List, [], ◌∷◌, Option,
  none, some,
}
use go_dcc_ex_driver.Throttle.State.{new_controller, Controller}
use go_dcc_ex_driver.Throttle.Preferences.{restore_tabs}
use go_dcc_ex_driver.Throttle.Session.{
  View, view, SessionAction, Session, close_session, enqueue, publish, flush_preferences,
}
use go_dcc_ex_driver.Throttle.Session.Loop.{
  Occasion, acts, polls, ends, ticks, breaks, garbles, hears, TabPersistence, start, with_layout,
  Loop, new_loop, handle, publish_changed, finish, round, raced, Happening, rounds, races, asks,
  closes, looks, happen, happen_all, take_action, publish_unless, unless_over, take_update,
}
use go_dcc_ex_driver.Throttle.Session.Loop.Queue.{apply_action-KeepsChannels}

-- What a view gets or has got last: the snapshot that waits for it, or else the one it took.
abbrev pub newest : Option View → Option View → Option View
newest none shown = shown
newest (some v) shown = some v

-- The snapshot that `run` published last has reached the view or waits for it.
abbrev IsShown : Loop → Type 0
IsShown l = newest l.session.updates l.shown ≡ some l.previous

abbrev IsCurrent : Loop → Type 0
IsCurrent l = IsShown l × ((l.over ≡ true) ⊎ (l.previous ≡ view l.controller))

-- A case of the `select` publishes nothing.
abbrev IsQuiet : Loop → Loop → Type 0
IsQuiet l m =
    (m.session.updates ≡ l.session.updates) × (m.shown ≡ l.shown) × (m.previous ≡ l.previous)

take_action-IsQuiet : (queue : List SessionAction) (l : Loop) → IsQuiet l (take_action queue l)
unfolding take_action
take_action-IsQuiet [] l = (refl, refl, refl)
take_action-IsQuiet (a ∷ rest) l =
    let kept = apply_action-KeepsChannels a l.controller (record l.session { actions = rest }) in
    (kept.1, refl, refl)

handle-IsQuiet : (o : Occasion) (l : Loop) → IsQuiet l (handle o l)
unfolding handle
handle-IsQuiet acts l = take_action-IsQuiet l.session.actions l
handle-IsQuiet (ticks now) l = (refl, refl, refl)
handle-IsQuiet polls l = (refl, refl, refl)
handle-IsQuiet ends l = (refl, refl, refl)
handle-IsQuiet (breaks e) l = (refl, refl, refl)
handle-IsQuiet (garbles e) l = (refl, refl, refl)
handle-IsQuiet (hears e) l = (refl, refl, refl)

published-IsCurrent :
    (m : Loop) (d : Dec (view m.controller ≡ m.previous))
    → IsShown m
    → IsCurrent (publish_unless d m)
unfolding publish_unless publish
published-IsCurrent m (yes same) h = (h, inr (sym same))
published-IsCurrent m (no changed) h = (refl, inr refl)

case-IsCurrent : (o : Occasion) (l : Loop) → IsShown l → IsCurrent (publish_changed (handle o l))
unfolding publish_changed
case-IsCurrent o l h =
    let (p, q, r) = handle-IsQuiet o l in published-IsCurrent (handle o l) _ (rw (p, q, r) h)

finish-IsCurrent : (l : Loop) → IsCurrent (finish l)
unfolding finish flush_preferences publish
finish-IsCurrent l = (refl, inl refl)

round-IsCurrent : (b : Bool) (o : Occasion) (l : Loop) → IsShown l → IsCurrent (round b o l)
unfolding round
round-IsCurrent true o l h = finish-IsCurrent l
round-IsCurrent false o l h = case-IsCurrent o l h

raced-IsCurrent : (b : Bool) (o : Occasion) (l : Loop) → IsShown l → IsCurrent (raced b o l)
unfolding raced close_session
raced-IsCurrent true o l h = finish-IsCurrent l
raced-IsCurrent false o l h = case-IsCurrent o (record l { session = close_session l.session }) h

over-IsCurrent :
    (b : Bool) (l next : Loop) → IsCurrent l → IsCurrent next → IsCurrent (unless_over b l next)
unfolding unless_over
over-IsCurrent true l next h k = h
over-IsCurrent false l next h k = k

enqueue-updates : (a : SessionAction) (s : Session) → (enqueue a s).0.updates ≡ s.updates
unfolding enqueue
enqueue-updates a s = ground arith

looks-IsCurrent :
    (o : Option View) (l : Loop) → l.session.updates ≡ o → IsCurrent l → IsCurrent (take_update o l)
unfolding take_update
looks-IsCurrent none l p h = h
looks-IsCurrent (some v) l p (h, k) = (sym (ap (λ u. newest u l.shown) p) ∙ h, k)

happen-IsCurrent : (h : Happening) (l : Loop) → IsCurrent l → IsCurrent (happen h l)
unfolding happen close_session
happen-IsCurrent (rounds o) l h =
    over-IsCurrent l.over l (round l.session.closing o l) h
      (round-IsCurrent l.session.closing o l h.0)
happen-IsCurrent (races o) l h =
    over-IsCurrent l.over l (raced l.session.closing o l) h
      (raced-IsCurrent l.session.closing o l h.0)
happen-IsCurrent (asks a) l h = (rw (enqueue-updates a l.session) h.0, h.1)
happen-IsCurrent closes l h = h
happen-IsCurrent looks l h = looks-IsCurrent l.session.updates l refl h

all-IsCurrent : (hs : List Happening) (l : Loop) → IsCurrent l → IsCurrent (happen_all hs l)
unfolding happen_all
all-IsCurrent [] l h = h
all-IsCurrent (x ∷ hs) l h = all-IsCurrent hs (happen x l) (happen-IsCurrent x l h)

start-IsCurrent :
    (toggle : List Bool) (tabs : Option TabPersistence) → IsCurrent (start toggle tabs)
unfolding start new_loop with_layout publish
start-IsCurrent toggle none = (refl, inr refl)
start-IsCurrent toggle (some tabs) =
    layout-IsCurrent (restore_tabs tabs.initial (new_controller toggle))
  where
    layout-IsCurrent : (r : Controller × Option Error) → IsCurrent (with_layout tabs r)
    layout-IsCurrent (c, none) = (refl, inr refl)
    layout-IsCurrent (c, some e) = (refl, inr refl)

-- In every state of a session, whatever happened to it since it began, the newest snapshot, which a
-- view has taken or which waits for it, is that of the controller as it stands, unless the loop has
-- returned; then it is the last one that was published.
pub newest_is_current :
    (hs : List Happening) (toggle : List Bool) (tabs : Option TabPersistence)
    → let l = happen_all hs (start toggle tabs) in
      (newest l.session.updates l.shown ≡ some l.previous)
      × ((l.over ≡ true) ⊎ (l.previous ≡ view l.controller))
newest_is_current hs toggle tabs =
    all-IsCurrent hs (start toggle tabs) (start-IsCurrent toggle tabs)
