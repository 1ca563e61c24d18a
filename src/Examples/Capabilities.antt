-- ===== src/Examples/Capabilities.antt =====
-- Tests of the capabilities' modules.
use go_dcc_ex_driver.Base.{
  ℕ, ◌≡◌, refl, map, ok, ◌≢◌, ◌↔◌, true, false, List, [], ◌∷◌, none, arith, pos, codes, eq_bytes,
  trim_space,
}
use go_dcc_ex_driver.Capabilities.Catalog.{
  Catalog, validate, validate_features, bad_identifier, good_versions, supports,
}
use go_dcc_ex_driver.Capabilities.Catalog.Valid.{IsValid, Offers, validate_iff, supports_iff}
use go_dcc_ex_driver.Capabilities.Discovery.{
  Discovery, new_discovery, begin, accept, reject, reset, snapshot, bare, pending, available,
}
use go_dcc_ex_driver.Capabilities.Discovery.Machine.{
  Call, begins, accepts, resets, run, step, IsTrusted, run-IsTrusted, run_late_answer,
}
use go_dcc_ex_driver.Capabilities.Discovery.Answers.{
  Answer, offers, refuses, looks, call_of, outcome, verdict, answered_once,
}

abbrev consists : Catalog
consists = record {
  schema_version = 1;
  features =
      record { id = codes "consists"; versions = 1 ∷ 2 ∷ []; description = []; details = [] } ∷ [];
}

consists_valid : validate consists ≡ none
unfolding validate validate_features bad_identifier good_versions codes eq_bytes trim_space
consists_valid = refl

validate_iff_example : (validate consists ≡ none) ↔ IsValid consists
validate_iff_example = validate_iff consists

supports_iff_example : (supports consists 1 (codes "consists") 2 ≡ true) ↔ (
    (◌≢◌ {A = ℕ} 1 0)
    × (1 ≡ consists.schema_version)
    × (◌≢◌ {A = ℕ} 2 0)
    × Offers consists.features (codes "consists") 2)
supports_iff_example = supports_iff consists 1 (codes "consists") 2

abbrev history : List Call
history = begins 5 (pos 10) ∷ accepts 1 consists 7 ∷ []

run-IsTrusted_example : IsTrusted (snapshot (run new_discovery history))
run-IsTrusted_example = run-IsTrusted history

-- A second query, of another connection.
abbrev again : List Call
again = resets ∷ begins 20 (pos 10) ∷ []

abbrev waiting : Discovery
waiting = record { current = bare pending; attempt = 1; deadline = 15 }

waiting_begun : begin new_discovery 5 (pos 10) ≡ (waiting, ok 1)
unfolding begin
waiting_begun = refl

run_late_answer_example :
    (accept (run waiting again) 1 consists 21 ≡ (run waiting again, false, none))
    × (reject (run waiting again) 1 21 ≡ (run waiting again, false))
unfolding step begin reset
run_late_answer_example =
    run_late_answer waiting again consists 21 (omega arith) (omega arith) (omega arith)

-- A stale answer, a look at the clock, the answer, and one more.
abbrev replies : List Answer
replies = refuses 7 8 ∷ looks 9 ∷ offers 1 consists 14 ∷ refuses 1 14 ∷ looks 20 ∷ []

replies-verdict : verdict 1 15 replies ≡ record { status = available; catalog = consists }
unfolding verdict outcome
replies-verdict = rw consists_valid refl

answered_once_example : (run waiting (map call_of replies)).current ≡ verdict 1 15 replies
answered_once_example = answered_once new_discovery waiting 1 5 (pos 10) replies waiting_begun
