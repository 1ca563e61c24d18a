-- ===== src/Capabilities/Discovery/Answers.antt =====
-- capabilities/discovery.go: which of many answers ends a query, said without its state machine.
use go_dcc_ex_driver.Base.{
  ℕ, ◌+◌, ◌≡◌, refl, sym, ap, ◌∙◌, subst, inl, inr, Bool, true, false, List, [], ◌∷◌, Option, none,
  some, arith, leb, ◌==◌, if◌then◌else◌, Bool-cases, ℤ, pos_part, map, ok,
}
use go_dcc_ex_driver.Capabilities.Catalog.{Catalog, CatalogError, validate}
use go_dcc_ex_driver.Capabilities.Discovery.{
  pending, available, unsupported, inconclusive, invalid_response, Snapshot, bare, is_pending,
  Discovery, begin, expire, still_pending, accept, reject,
}
use go_dcc_ex_driver.Capabilities.Discovery.Machine.{
  Call, accepts, rejects, expires, clone_lem, step, run,
}

-- What may come in while a query runs: a catalogue or a refusal with the token it answers and its
-- time, and a look at the clock.
pub data Answer : Type 0 where
  offers : ℕ → Catalog → ℕ → Answer
  refuses : ℕ → ℕ → Answer
  looks : ℕ → Answer

abbrev pub call_of : Answer → Call
call_of (offers token catalog now) = accepts token catalog now
call_of (refuses token now) = rejects token now
call_of (looks now) = expires now

-- Whether an answer ends the query of this token and deadline: it carries the token, or it is a look
-- at the clock at the deadline or later.
abbrev decides : ℕ → ℕ → Answer → Bool
decides token deadline (offers t catalog now) = t == token
decides token deadline (refuses t now) = t == token
decides token deadline (looks now) = leb deadline now

abbrev time_of : Answer → ℕ
time_of (offers t catalog now) = now
time_of (refuses t now) = now
time_of (looks now) = now

abbrev judged : Catalog → Option CatalogError → Snapshot
judged catalog none = record { status = available; catalog = catalog }
judged catalog (some e) = bare invalid_response

-- What an answer in time says.
abbrev content : Answer → Snapshot
content (offers t catalog now) = judged catalog (validate catalog)
content (refuses t now) = bare unsupported
content (looks now) = bare inconclusive

unfoldable pub outcome : ℕ → Answer → Snapshot
outcome deadline a = if leb deadline (time_of a) then bare inconclusive else content a

-- The first answer that ends the query settles it.
unfoldable pub verdict : ℕ → ℕ → List Answer → Snapshot
unfolding outcome
verdict token deadline [] = bare pending
verdict token deadline (a ∷ rest) =
    let later = verdict token deadline rest in
    if decides token deadline a then outcome deadline a else later

step_settled :
    (d : Discovery) (a : Answer) → is_pending d.current.status ≡ false → step d (call_of a) ≡ d
unfolding step accept reject expire still_pending
step_settled d (offers t catalog now) h = ground arith
step_settled d (refuses t now) h = ground arith
step_settled d (looks now) h = ground arith

run_settled :
    (d : Discovery) (answers : List Answer)
    → is_pending d.current.status ≡ false
    → run d (map call_of answers) ≡ d
unfolding run
run_settled d [] h = refl
run_settled d (a ∷ rest) h =
    ap (λ x. run x (map call_of rest)) (step_settled d a h) ∙ run_settled d rest h

step_passed :
    (d : Discovery) (a : Answer) → decides d.attempt d.deadline a ≡ false → step d (call_of a) ≡ d
unfolding step accept reject expire still_pending
step_passed d (offers t catalog now) h = ground arith
step_passed d (refuses t now) h = ground arith
step_passed d (looks now) h = ground arith

step_decided :
    (d : Discovery) (a : Answer)
    → d.current.status ≡ pending
    → decides d.attempt d.deadline a ≡ true
    → ((step d (call_of a)).current ≡ outcome d.deadline a)
      × (is_pending (outcome d.deadline a).status ≡ false)
unfolding step accept reject expire still_pending outcome
step_decided d (offers t catalog now) p h = ground (arith, clone_lem catalog)
step_decided d (refuses t now) p h = ground arith
step_decided d (looks now) p h = ground arith

run-verdict :
    (d : Discovery) (answers : List Answer)
    → d.current ≡ bare pending
    → (run d (map call_of answers)).current ≡ verdict d.attempt d.deadline answers
unfolding run verdict
run-verdict d [] p = p
run-verdict d (a ∷ rest) p = elim (Bool-cases (decides d.attempt d.deadline a)) [
  | inl h ↦
      let (now, settled) = step_decided d a (ap (λ s. s.status) p) h in
      let over = subst (λ s. is_pending s.status ≡ false) (sym now) settled in
      rw h (ap (λ x. x.current) (run_settled (step d (call_of a)) rest over) ∙ now)
  | inr h ↦
      rw h (ap (λ x. (run x (map call_of rest)).current) (step_passed d a h) ∙ run-verdict d rest p)
]

begin-ok :
    (d q : Discovery) (token now : ℕ) (timeout : ℤ)
    → begin d now timeout ≡ (q, ok token)
    → (q.current ≡ bare pending) × (q.attempt ≡ token) × (q.deadline ≡ now + pos_part timeout)
unfolding begin
begin-ok d q token now timeout h = ground arith

-- A query that has begun is answered once: behind any sequence of answers and looks at the clock, its
-- state is settled by the first that carries its token or that looks at the clock when its time is
-- over. If that comes at the deadline or later, the query is inconclusive; else a catalogue that
-- validates is available as it is, another one is an invalid response, and a refusal is unsupported.
-- Answers to other queries change nothing before it, and none changes anything behind it.
pub answered_once :
    (d q : Discovery) (token now : ℕ) (timeout : ℤ) (answers : List Answer)
    → begin d now timeout ≡ (q, ok token)
    → (run q (map call_of answers)).current ≡ verdict token (now + pos_part timeout) answers
answered_once d q token now timeout answers h =
    let (p, t, l) = begin-ok d q token now timeout h in
    run-verdict q answers p
    ∙ ap (λ x. verdict x q.deadline answers) t
    ∙ ap (λ x. verdict token x answers) l
