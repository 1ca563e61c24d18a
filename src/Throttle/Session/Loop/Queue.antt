-- ===== src/Throttle/Session/Loop/Queue.antt =====
-- throttle/session.go: that a round takes an action from the queue, and loses none.
use go_dcc_ex_driver.Base.{
  ◌≡◌, refl, sym, ap, map, map-append, Option, Error, ◌∙◌, ◌≤◌, ◌<◌, ◌⊎◌, inl, inr, arith, Bool,
  true, false, List, [], ◌∷◌, ◌++◌, append-nil, append_assoc, length, length-append, if◌then◌else◌,
  codes,
}
use go_dcc_ex_driver.Config.Throttles.{ThrottleSettings}
use go_dcc_ex_driver.Throttle.State.{Controller, Action}
use go_dcc_ex_driver.Throttle.Link.{detach}
use go_dcc_ex_driver.Throttle.Preferences.{tab_settings}
use go_dcc_ex_driver.Throttle.Session.{
  View, SessionAction, preference, posted, Session, close_session, publish, save_changed, apply,
  log_failed, finish_action, run_action, apply_action, drain, flush_preferences,
}
use go_dcc_ex_driver.Throttle.Session.Loop.{
  Occasion, acts, polls, ends, ticks, breaks, garbles, hears, Loop, handle, publish_changed, finish,
  round, raced, publish_unless, take_action,
}

-- An action changes neither the queue nor the snapshot that waits.
abbrev pub KeepsChannels : Session → Session → Type 0
KeepsChannels s t = (t.actions ≡ s.actions) × (t.updates ≡ s.updates) × (t.closing ≡ s.closing)

save_changed-KeepsChannels :
    (before : ThrottleSettings) (c : Controller) (s : Session)
    → KeepsChannels s (save_changed before c s).1
unfolding save_changed
save_changed-KeepsChannels before c s = ground arith

either-KeepsChannels :
    (b : Bool) (s : Session) (p q : Controller × Session)
    → KeepsChannels s p.1
    → KeepsChannels s q.1
    → KeepsChannels s (if b then p else q).1
either-KeepsChannels true s p q h k = h
either-KeepsChannels false s p q h k = k

run_action-KeepsChannels :
    (a : SessionAction) (action : Action) (c : Controller) (s : Session)
    → KeepsChannels s (run_action a action c s).1
unfolding run_action finish_action
run_action-KeepsChannels a action c s = save_changed-KeepsChannels _ _ s

pub apply_action-KeepsChannels :
    (a : SessionAction) (c : Controller) (s : Session) → KeepsChannels s (apply_action a c s).1
unfolding apply_action finish_action
apply_action-KeepsChannels (preference p) c s =
    run_action-KeepsChannels (preference p) (apply p) _ s
apply_action-KeepsChannels (posted action) c s =
    either-KeepsChannels s.closing s _ (run_action (posted action) action c s) (refl, refl, refl)
      (run_action-KeepsChannels (posted action) action c s)

-- The actions whose `finish` was called, in order.
abbrev pub served : Session → List SessionAction
served s = map (λ p. p.0) s.finished

finished-served :
    (a : SessionAction) (e : Option Error) (s : Session)
    → served (finish_action a e s) ≡ served s ++ a ∷ []
unfolding finish_action
finished-served a e s = map-append (λ p. p.0) s.finished ((a, e) ∷ [])

save_changed-finished :
    (before : ThrottleSettings) (c : Controller) (s : Session)
    → (save_changed before c s).1.finished ≡ s.finished
unfolding save_changed
save_changed-finished before c s = ground arith

run_action-served :
    (a : SessionAction) (action : Action) (c : Controller) (s : Session)
    → served (run_action a action c s).1 ≡ served s ++ a ∷ []
unfolding run_action
run_action-served a action c s =
    let d = log_failed [] (action c).1 (action c).0 in
    finished-served a _ (save_changed (tab_settings c) d s).1
    ∙ ap (λ done. map (λ p. p.0) done ++ a ∷ []) (save_changed-finished _ _ s)

either-served :
    (b : Bool) (out : List SessionAction) (p q : Controller × Session)
    → served p.1 ≡ out
    → served q.1 ≡ out
    → served (if b then p else q).1 ≡ out
either-served true out p q h k = h
either-served false out p q h k = k

apply_action-served :
    (a : SessionAction) (c : Controller) (s : Session)
    → served (apply_action a c s).1 ≡ served s ++ a ∷ []
unfolding apply_action
apply_action-served (preference p) c s = run_action-served (preference p) (apply p) _ s
apply_action-served (posted action) c s =
    either-served s.closing _ _ (run_action (posted action) action c s)
      (finished-served (posted action) _ s) (run_action-served (posted action) action c s)

-- The flush serves all that waits.
pub drain-served :
    (queue : List SessionAction) (c : Controller) (s : Session)
    → s.actions ≡ queue
    → (served (drain queue c s).1 ≡ served s ++ queue)
      × ((drain queue c s).1.actions ≡ [])
      × ((drain queue c s).1.closing ≡ s.closing)
unfolding drain
drain-served [] c s p = (sym (append-nil (served s)), p, refl)
drain-served (a ∷ rest) c s p =
    let begun = record s { actions = rest } in
    let r = apply_action a c begun in
    let (q, u, k) = apply_action-KeepsChannels a c begun in
    let (done, empty, shut) = drain-served rest r.0 r.1 q in
    (
      done
          ∙ ap (λ out. out ++ rest) (apply_action-served a c begun)
          ∙ append_assoc (served s) (a ∷ []) rest,
      empty,
      shut ∙ k,
    )

-- What a happening does to the actions: `taken` counts those that it must apply, if there are any,
-- and `more` are those that it adds.
abbrev pub Serves : Bool → List SessionAction → Loop → Loop → Type 0
Serves taken more l next =
    (served next.session ++ next.session.actions ≡ (served l.session ++ l.session.actions) ++ more)
    × (length (served l.session) ≤ length (served next.session))
    × ((taken ≡ false)
        ⊎ (l.session.actions ≡ [])
        ⊎ (length (served l.session) < length (served next.session)))

abbrev pub is_acts : Occasion → Bool
is_acts acts = true
is_acts _ = false

pub idle-Serves :
    (l next : Loop)
    → next.session.finished ≡ l.session.finished
    → next.session.actions ≡ l.session.actions
    → Serves false [] l next
idle-Serves l next p q =
    rw (p, q) (sym (append-nil (served l.session ++ l.session.actions)), omega arith, inl refl)

take_action-Serves :
    (queue : List SessionAction) (l : Loop)
    → l.session.actions ≡ queue
    → Serves true [] l (take_action queue l)
unfolding take_action
take_action-Serves [] l p =
    (sym (append-nil (served l.session ++ l.session.actions)), omega arith, inr (inl p))
take_action-Serves (a ∷ rest) l p =
    let begun = record l.session { actions = rest } in
    let kept = apply_action-KeepsChannels a l.controller begun in
    let done = apply_action-served a l.controller begun in
    (
      rw (kept.0, done, p)
          (append_assoc (served l.session) (a ∷ []) rest
            ∙ sym (append-nil (served l.session ++ a ∷ rest))),
      omega (arith, ap length done, length-append (served l.session) (a ∷ [])),
      inr (inr (omega (arith, ap length done, length-append (served l.session) (a ∷ [])))),
    )

handle-Serves : (o : Occasion) (l : Loop) → Serves (is_acts o) [] l (handle o l)
unfolding handle
handle-Serves acts l = take_action-Serves l.session.actions l refl
handle-Serves (ticks now) l = idle-Serves l (handle (ticks now) l) refl refl
handle-Serves polls l = idle-Serves l (handle polls l) refl refl
handle-Serves ends l = idle-Serves l (handle ends l) refl refl
handle-Serves (breaks e) l = idle-Serves l (handle (breaks e) l) refl refl
handle-Serves (garbles e) l = idle-Serves l (handle (garbles e) l) refl refl
handle-Serves (hears e) l = idle-Serves l (handle (hears e) l) refl refl

emptied : (out queue : List SessionAction) → (queue ≡ []) ⊎ (length out < length (out ++ queue))
emptied out [] = inl refl
emptied out (a ∷ queue) = inr (omega (arith, length-append out (a ∷ queue)))

finish-Serves : (b : Bool) (l : Loop) → Serves b [] l (finish l)
unfolding finish flush_preferences publish close_session
finish-Serves b l =
    let gone = detach (codes "Disconnected") l.controller in
    let (done, empty, shut) = drain-served l.session.actions gone (close_session l.session) refl in
    (
      rw (empty, done) refl,
      omega (arith, ap length done, length-append (served l.session) l.session.actions),
      inr (rw done (emptied (served l.session) l.session.actions)),
    )

published-Serves :
    {next previous : View} (b : Bool) (d : Dec (next ≡ previous)) (l m : Loop)
    → Serves b [] l m
    → Serves b [] l (publish_unless d m)
unfolding publish_unless publish
published-Serves b (yes same) l m h = h
published-Serves b (no changed) l m h = h

pub round-Serves : (b : Bool) (o : Occasion) (l : Loop) → Serves (is_acts o) [] l (round b o l)
unfolding round publish_changed
round-Serves true o l = finish-Serves (is_acts o) l
round-Serves false o l = published-Serves (is_acts o) _ l (handle o l) (handle-Serves o l)

pub raced-Serves : (b : Bool) (o : Occasion) (l : Loop) → Serves (is_acts o) [] l (raced b o l)
unfolding raced publish_changed close_session
raced-Serves true o l = finish-Serves (is_acts o) l
raced-Serves false o l =
    let shut = record l { session = close_session l.session } in
    published-Serves (is_acts o) _ l (handle o shut) (handle-Serves o shut)
