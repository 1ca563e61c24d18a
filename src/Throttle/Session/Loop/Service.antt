-- ===== src/Throttle/Session/Loop/Service.antt =====
-- throttle/session.go: that every accepted action is finished, once and in order.
use go_dcc_ex_driver.Base.{
  ◌≡◌, refl, sym, ap, ◌∙◌, ◌-◌, ℕ, suc, ◌+◌, ◌≤◌, ◌<◌, ◌⊎◌, inl, inr, arith, Bool, true, false,
  List, [], ◌∷◌, ◌++◌, append-nil, append_assoc, Option, none, some, length, length-append,
  if◌then◌else◌, Error,
}
use go_dcc_ex_driver.Throttle.Session.{View, SessionAction, Session, close_session, enqueue}
use go_dcc_ex_driver.Throttle.Session.Loop.{
  Loop, round, raced, Happening, rounds, races, asks, closes, looks, happen, happen_all,
  unless_over, take_update,
}
use go_dcc_ex_driver.Throttle.Session.Loop.Queue.{
  served, Serves, is_acts, idle-Serves, round-Serves, raced-Serves,
}
use go_dcc_ex_driver.Throttle.Session.Loop.Ending.{IsDone, happen-IsDone}

-- The actions that a happening adds to the queue.
accepted_by : Option Error → SessionAction → List SessionAction
accepted_by none a = a ∷ []
accepted_by (some e) a = []

unfoldable pub accepted : Happening → Loop → List SessionAction
unfolding accepted_by
accepted (asks a) l = accepted_by (enqueue a l.session).1 a
accepted _ l = []

-- A round that receives an action, if there is one, while `run` goes on.
abbrev pub takes : Happening → Bool
takes (rounds o) = is_acts o
takes (races o) = is_acts o
takes _ = false

over-Serves :
    (b t : Bool) (l next : Loop)
    → l.over ≡ b
    → IsDone l
    → Serves t [] l next
    → Serves t [] l (unless_over b l next)
unfolding unless_over
over-Serves false t l next p h serves = serves
over-Serves true t l next p (inl running) serves = ground arith
over-Serves true t l next p (inr (empty, shut)) serves =
    (sym (append-nil (served l.session ++ l.session.actions)), omega arith, inr (inl empty))

enqueue-actions :
    (a : SessionAction) (s : Session)
    → (enqueue a s).0.actions ≡ s.actions ++ accepted_by (enqueue a s).1 a
unfolding enqueue accepted_by
enqueue-actions a s = ground (arith, append-nil s.actions)

enqueue-finished : (a : SessionAction) (s : Session) → (enqueue a s).0.finished ≡ s.finished
unfolding enqueue
enqueue-finished a s = ground arith

enqueue-Serves :
    (a : SessionAction) (l : Loop)
    → Serves false (accepted (asks a) l) l (record l { session = (enqueue a l.session).0 })
unfolding accepted
enqueue-Serves a l = rw (enqueue-finished a l.session) (
  ap (◌++◌ (served l.session)) (enqueue-actions a l.session)
      ∙ sym (
          append_assoc (served l.session) l.session.actions
            (accepted_by (enqueue a l.session).1 a)),
  omega arith,
  inl refl,
)

looks-Serves : (o : Option View) (l : Loop) → Serves false [] l (take_update o l)
unfolding take_update
looks-Serves none l = idle-Serves l l refl refl
looks-Serves (some v) l = idle-Serves l (take_update (some v) l) refl refl

happen-Serves :
    (h : Happening) (l : Loop) → IsDone l → Serves (takes h) (accepted h l) l (happen h l)
unfolding happen accepted close_session
happen-Serves (rounds o) l d =
    over-Serves l.over (is_acts o) l (round l.session.closing o l) refl d
      (round-Serves l.session.closing o l)
happen-Serves (races o) l d =
    over-Serves l.over (is_acts o) l (raced l.session.closing o l) refl d
      (raced-Serves l.session.closing o l)
happen-Serves (asks a) l d = enqueue-Serves a l
happen-Serves closes l d = idle-Serves l (record l { session = close_session l.session }) refl refl
happen-Serves looks l d = looks-Serves l.session.updates l

-- How many of the happenings receive an action.
unfoldable pub chances : List Happening → ℕ
chances [] = 0
chances (h ∷ hs) = if takes h then suc (chances hs) else chances hs

-- The actions that are added meanwhile.
unfoldable pub accepted_all : List Happening → Loop → List SessionAction
accepted_all [] l = []
accepted_all (h ∷ hs) l = accepted h l ++ accepted_all hs (happen h l)

few_left :
    (t : Bool) (k n a b : ℕ) (queue : List SessionAction)
    → n ≤ (if t then suc k else k)
    → n ≤ length queue
    → (t ≡ false) ⊎ (queue ≡ []) ⊎ (a < b)
    → n - (b - a) ≤ k
few_left true k n a b queue h q (inl p) = ground arith
few_left false k n a b queue h q (inl p) = omega arith
few_left t k n a b queue h q (inr (inl p)) = omega (arith, ap length p)
few_left true k n a b queue h q (inr (inr p)) = omega arith
few_left false k n a b queue h q (inr (inr p)) = omega arith

-- The queue holds what is left of it, behind the actions that were served.
lengths :
    (out queue out' queue' more : List SessionAction) (n : ℕ)
    → out' ++ queue' ≡ (out ++ queue) ++ more
    → length out ≤ length out'
    → n ≤ length queue
    → n - (length out' - length out) ≤ length queue'
lengths out queue out' queue' more n p grew h = omega (
  arith,
  ap length p,
  length-append out' queue',
  length-append (out ++ queue) more,
  length-append out queue,
)

all_served :
    (hs : List Happening) (l : Loop) (n : ℕ)
    → IsDone l
    → n ≤ chances hs
    → n ≤ length l.session.actions
    → (served (happen_all hs l).session ++ (happen_all hs l).session.actions
        ≡ (served l.session ++ l.session.actions) ++ accepted_all hs l)
      × (length (served l.session) + n ≤ length (served (happen_all hs l).session))
unfolding happen_all accepted_all chances
all_served [] l n d few some_more =
    (sym (append-nil (served l.session ++ l.session.actions)), omega arith)
all_served (h ∷ hs) l n d few some_more =
    let next = happen h l in
    let (eq, grew, took) = happen-Serves h l d in
    let left = n - (length (served next.session) - length (served l.session)) in
    let (eq', grew') =
      all_served hs next left (happen-IsDone h l d)
        (few_left (takes h) (chances hs) n (length (served l.session))
          (length (served next.session)) l.session.actions few some_more took)
        (lengths (served l.session) l.session.actions (served next.session) next.session.actions
          (accepted h l) n eq grew some_more) in
    (
      eq'
          ∙ ap (λ out. out ++ accepted_all hs next) eq
          ∙ append_assoc (served l.session ++ l.session.actions) (accepted h l)
              (accepted_all hs next),
      omega arith,
    )

emptied_at_end : (l : Loop) → IsDone l → (l.over ≡ false) ⊎ (l.session.actions ≡ [])
emptied_at_end l (inl running) = inl running
emptied_at_end l (inr (empty, shut)) = inr empty

all-IsDone : (hs : List Happening) (l : Loop) → IsDone l → IsDone (happen_all hs l)
unfolding happen_all
all-IsDone [] l d = d
all-IsDone (h ∷ hs) l d = all-IsDone hs (happen h l) (happen-IsDone h l d)

-- Whatever happens to a session whose loop runs, the actions whose `finish` `applyAction` called,
-- followed by those that wait, are those that were finished or waited at first, followed by those that
-- were accepted meanwhile, in that order: none is lost, finished twice or overtaken. And each round that
-- receives an action finishes one, while there are any: after n such rounds at least n more actions
-- are finished, for every n up to the number that waited. This holds through the end of the loop too,
-- behind which no action waits.
pub actions_served :
    (hs : List Happening) (l : Loop) (n : ℕ)
    → l.over ≡ false
    → n ≤ chances hs
    → n ≤ length l.session.actions
    → (served (happen_all hs l).session ++ (happen_all hs l).session.actions
        ≡ (served l.session ++ l.session.actions) ++ accepted_all hs l)
      × (length (served l.session) + n ≤ length (served (happen_all hs l).session))
      × (((happen_all hs l).over ≡ false) ⊎ ((happen_all hs l).session.actions ≡ []))
actions_served hs l n running few some_more =
    let (order, more) = all_served hs l n (inl running) few some_more in
    (order, more, emptied_at_end (happen_all hs l) (all-IsDone hs l (inl running)))
