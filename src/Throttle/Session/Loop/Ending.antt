-- ===== src/Throttle/Session/Loop/Ending.antt =====
-- throttle/session.go: that the queue is empty behind the end of the loop.
use go_dcc_ex_driver.Base.{
  ◌≡◌, refl, ◌∙◌, ◌⊎◌, inl, inr, Bool, true, false, List, [], ◌∷◌, Option, none, some, codes,
}
use go_dcc_ex_driver.Throttle.Link.{detach}
use go_dcc_ex_driver.Throttle.Session.{
  View, SessionAction, close_session, enqueue, publish, flush_preferences,
}
use go_dcc_ex_driver.Throttle.Session.Loop.{
  Occasion, acts, polls, ends, ticks, breaks, garbles, hears, Loop, handle, publish_changed, finish,
  round, raced, Happening, rounds, races, asks, closes, looks, happen, publish_unless, take_action,
  unless_over, take_update,
}
use go_dcc_ex_driver.Throttle.Session.Loop.Queue.{drain-served}

-- Behind the return of `run` the queue is empty, and takes no action.
abbrev pub IsDone : Loop → Type 0
IsDone l = (l.over ≡ false) ⊎ ((l.session.actions ≡ []) × (l.session.closing ≡ true))

finished-IsDone : (l : Loop) → IsDone (finish l)
unfolding finish flush_preferences publish close_session
finished-IsDone l =
    let gone = detach (codes "Disconnected") l.controller in
    let (done, empty, shut) = drain-served l.session.actions gone (close_session l.session) refl in
    inr (empty, shut)

take_action-over : (queue : List SessionAction) (l : Loop) → (take_action queue l).over ≡ l.over
unfolding take_action
take_action-over [] l = refl
take_action-over (a ∷ rest) l = refl

pub handle-over : (o : Occasion) (l : Loop) → (handle o l).over ≡ l.over
unfolding handle
handle-over acts l = take_action-over l.session.actions l
handle-over (ticks now) l = refl
handle-over polls l = refl
handle-over ends l = refl
handle-over (breaks e) l = refl
handle-over (garbles e) l = refl
handle-over (hears e) l = refl

published-over :
    {next previous : View} (d : Dec (next ≡ previous)) (l : Loop)
    → (publish_unless d l).over ≡ l.over
unfolding publish_unless
published-over (yes same) l = refl
published-over (no changed) l = refl

round-IsDone : (b : Bool) (o : Occasion) (l : Loop) → l.over ≡ false → IsDone (round b o l)
unfolding round publish_changed
round-IsDone true o l p = finished-IsDone l
round-IsDone false o l p = inl (published-over _ (handle o l) ∙ handle-over o l ∙ p)

raced-IsDone : (b : Bool) (o : Occasion) (l : Loop) → l.over ≡ false → IsDone (raced b o l)
unfolding raced publish_changed
raced-IsDone true o l p = finished-IsDone l
raced-IsDone false o l p =
    let shut = record l { session = close_session l.session } in
    inl (published-over _ (handle o shut) ∙ handle-over o shut ∙ p)

over-IsDone :
    (b : Bool) (l next : Loop)
    → l.over ≡ b
    → IsDone l
    → (l.over ≡ false → IsDone next)
    → IsDone (unless_over b l next)
unfolding unless_over
over-IsDone true l next p d f = d
over-IsDone false l next p d f = f p

enqueue-IsDone :
    (a : SessionAction) (l : Loop)
    → IsDone l
    → IsDone (record l { session = (enqueue a l.session).0 })
unfolding enqueue
enqueue-IsDone a l (inl running) = inl running
enqueue-IsDone a l (inr (empty, shut)) = inr (rw shut empty, rw shut refl)

looks-IsDone : (o : Option View) (l : Loop) → IsDone l → IsDone (take_update o l)
unfolding take_update
looks-IsDone none l d = d
looks-IsDone (some v) l d = d

pub happen-IsDone : (h : Happening) (l : Loop) → IsDone l → IsDone (happen h l)
unfolding happen close_session
happen-IsDone (rounds o) l d =
    over-IsDone l.over l (round l.session.closing o l) refl d (round-IsDone l.session.closing o l)
happen-IsDone (races o) l d =
    over-IsDone l.over l (raced l.session.closing o l) refl d (raced-IsDone l.session.closing o l)
happen-IsDone (asks a) l d = enqueue-IsDone a l d
happen-IsDone closes l (inl running) = inl running
happen-IsDone closes l (inr (empty, shut)) = inr (empty, refl)
happen-IsDone looks l d = looks-IsDone l.session.updates l d
