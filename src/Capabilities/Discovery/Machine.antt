-- ===== src/Capabilities/Discovery/Machine.antt =====
-- The discovery state machine: its steps, what every history keeps, and which answers count.
use go_dcc_ex_driver.Base.{
  ℕ, ◌+◌, ◌%◌, ◌^◌, ◌<◌, ◌≡◌, refl, ap, ◌⊎◌, inr, ◌≢◌, false, List, [], ◌∷◌, none, arith, Result,
  ok, err, ℤ, map,
}
use go_dcc_ex_driver.Capabilities.Catalog.{Catalog, empty_catalog, validate, clone}
use go_dcc_ex_driver.Capabilities.Discovery.{
  available, Snapshot, Discovery, new_discovery, begin, expire, still_pending, accept, reject,
  reset, snapshot,
}

-- A call of a method that changes the state.
pub data Call : Type 0 where
  begins : ℕ → ℤ → Call
  accepts : ℕ → Catalog → ℕ → Call
  rejects : ℕ → ℕ → Call
  expires : ℕ → Call
  resets : Call

unfoldable pub step : Discovery → Call → Discovery
step d (begins now timeout) = (begin d now timeout).0
step d (accepts attempt catalog now) = (accept d attempt catalog now).0
step d (rejects attempt now) = (reject d attempt now).0
step d (expires now) = (expire d now).0
step d resets = reset d

unfoldable pub run : Discovery → List Call → Discovery
run d [] = d
run d (c ∷ cs) = run (step d c) cs

map-id {ℓ} : {A : Type ℓ} (f : A → A) → ((a : A) → f a ≡ a) → (xs : List A) → map f xs ≡ xs
map-id f h [] = refl
map-id f h (x ∷ xs) = cc (h x, map-id f h xs)

pub clone_lem : (c : Catalog) → clone c ≡ c
unfolding clone
clone_lem c = ap (λ fs. record c { features = fs }) (map-id _ (λ f. refl) c.features)

-- A catalogue is offered only once it has been validated, and in no other status is there any.
abbrev pub IsTrusted : Snapshot → Type 0
IsTrusted s =
    ((s.status ≡ available) × (validate s.catalog ≡ none))
    ⊎ ((s.status ≢ available) × (s.catalog ≡ empty_catalog))

pub step-IsTrusted : (d : Discovery) (c : Call) → IsTrusted d.current → IsTrusted (step d c).current
unfolding step begin accept reject expire reset
step-IsTrusted d (begins now timeout) h = ground arith
step-IsTrusted d (accepts attempt catalog now) h = ground (arith, clone_lem catalog)
step-IsTrusted d (rejects attempt now) h = ground arith
step-IsTrusted d (expires now) h = ground arith
step-IsTrusted d resets h = ground arith

run_after-IsTrusted :
    (d : Discovery) (cs : List Call) → IsTrusted d.current → IsTrusted (run d cs).current
unfolding run
run_after-IsTrusted d [] h = h
run_after-IsTrusted d (c ∷ cs) h = run_after-IsTrusted (step d c) cs (step-IsTrusted d c h)

-- After any history of calls the snapshot offers a catalogue only in the status Available, and then
-- one that `Validate` accepts; in every other status its catalogue is empty.
pub run-IsTrusted : (cs : List Call) → IsTrusted (snapshot (run new_discovery cs))
unfolding snapshot
run-IsTrusted cs =
    rw (clone_lem (run new_discovery cs).current.catalog)
      (run_after-IsTrusted new_discovery cs (inr (λ e. cc, refl)))

-- How many queries are begun along a history, refused ones not counted.
abbrev count_begin : Discovery × Result ℕ → ℕ
count_begin (d, ok token) = 1
count_begin (d, err e) = 0

abbrev begins_of : Discovery → Call → ℕ
begins_of d (begins now timeout) = count_begin (begin d now timeout)
begins_of d _ = 0

abbrev pub begun : Discovery → List Call → ℕ
begun d [] = 0
begun d (c ∷ cs) = begins_of d c + begun (step d c) cs

attempt-step :
    (d : Discovery) (c : Call)
    → d.attempt < 2 ^ 64
    → (step d c).attempt ≡ (d.attempt + begins_of d c) % 2 ^ 64
unfolding step begin accept reject expire reset
attempt-step d (begins now timeout) h = ground arith
attempt-step d (accepts attempt catalog now) h = ground arith
attempt-step d (rejects attempt now) h = ground arith
attempt-step d (expires now) h = ground arith
attempt-step d resets h = ground arith

attempt-run :
    (d : Discovery) (cs : List Call)
    → d.attempt < 2 ^ 64
    → (run d cs).attempt ≡ (d.attempt + begun d cs) % 2 ^ 64
unfolding run
attempt-run d [] h = omega arith
attempt-run d (c ∷ cs) h =
    let one = attempt-step d c h in
    omega (arith, one, attempt-run (step d c) cs (omega (arith, one)))

stale_token :
    (d : Discovery) (token now : ℕ) → token ≢ d.attempt → still_pending d token now ≡ (d, false)
unfolding still_pending
stale_token d token now h = ground arith

-- An answer that carries the token of an earlier query changes nothing, whatever calls lie between,
-- resets included, as long as at least one and fewer than 2^64 queries were begun since.
pub run_late_answer :
    (d : Discovery) (cs : List Call) (catalog : Catalog) (now : ℕ)
    → d.attempt < 2 ^ 64
    → 0 < begun d cs
    → begun d cs < 2 ^ 64
    → (accept (run d cs) d.attempt catalog now ≡ (run d cs, false, none))
      × (reject (run d cs) d.attempt now ≡ (run d cs, false))
unfolding accept reject
run_late_answer d cs catalog now h some_begun few =
    let other : d.attempt ≢ (run d cs).attempt = omega (arith, attempt-run d cs h) in
    let stale = stale_token (run d cs) d.attempt now other in (rw stale, rw stale)
