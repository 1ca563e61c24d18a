-- ===== src/Stations/Store.antt =====
-- stations/store.go: the database of stations. The database itself, the encoding of a profile as JSON
-- and the letters' case are libraries', and so arguments of this model.
pub mod Refines
use go_dcc_ex_driver.Base.{
  ℕ, ◌≡◌, Bool, true, false, not, ◌&&◌, ◌||◌, List, [], ◌∷◌, ◌++◌, Option, none, some, ltb, ◌==◌,
  if◌then◌else◌, Bytes, codes, eq_bytes, trim_space, Error, message, Result, ok, ◌>>=◌,
}
use go_dcc_ex_driver.Base
use go_dcc_ex_driver.Stations.Profile.{Profile, Platform, normalize}
use go_dcc_ex_driver.Protocol.Errors.{error_text, quote}

-- What bbolt offers of a database, the bucket first: whether there is such a bucket, its creation, the
-- value of a key, its change and removal, the pairs in the order in which `ForEach` visits them, and
-- `Update`, which runs a function in a transaction.
pub record Bolt : Type 1 where
  pub Db : Type 0
  pub has_bucket : Db → Bytes → Bool
  pub create : Db → Bytes → Result Db
  pub get : Db → Bytes → Bytes → Option Bytes
  pub put : Db → Bytes → Bytes → Bytes → Result Db
  pub remove : Db → Bytes → Bytes → Result Db
  pub entries : Db → Bytes → List (Bytes × Bytes)
  pub update : (Db → Result Db) → Db → Db × Option Error

-- `json.Marshal` and `json.Unmarshal` of a profile.
pub record Codec : Type 0 where
  pub marshal : Profile → Result Bytes
  pub unmarshal : Bytes → Result Profile

abbrev pub records : Bytes
records = codes "stations"

abbrev pub metadata : Bytes
metadata = codes "metadata"

abbrev pub schema_key : Bytes
schema_key = codes "schema"

abbrev pub err_exists : Error
err_exists = message (codes "a station with that name already exists")

abbrev pub err_not_found : Error
err_not_found = message (codes "saved station not found")

abbrev pub is_some {ℓ} : {A : Type ℓ} → Option A → Bool
is_some none = false
is_some (some a) = true

-- The order of Go's strings.
less_bytes : Bytes → Bytes → Bool
less_bytes s [] = false
less_bytes [] (d ∷ t) = true
less_bytes (c ∷ s) (d ∷ t) = ltb c d || c == d && less_bytes s t

insert_sorted : Platform → Profile → List Profile → List Profile
unfolding less_bytes
insert_sorted lib p [] = p ∷ []
insert_sorted lib p (q ∷ rest) =
    if less_bytes (lib.to_lower q.name) (lib.to_lower p.name)
    then q ∷ insert_sorted lib p rest
    else p ∷ q ∷ rest

-- `sort.Slice`; the keys that it compares are distinct, as those of a bucket are.
unfoldable pub sorted : Platform → List Profile → List Profile
unfolding insert_sorted
sorted lib [] = []
sorted lib (p ∷ rest) = insert_sorted lib p (sorted lib rest)

-- `fmt.Errorf` of a text, the key and the error.
explained : Bytes → Bytes → Error → Error
explained text key e = message (text ++ quote key ++ codes ": " ++ error_text e)

with_reason {ℓ} : {A : Type ℓ} → Bytes → Bytes → Result A → Result A
unfolding explained
with_reason text key (Base.err e) = Base.err (explained text key e)
with_reason text key (ok a) = ok a

-- One record of the bucket.
unfoldable pub read_entry : Platform → Codec → Bytes → Bytes → Result Profile
unfolding with_reason
read_entry lib json key value =
    with_reason (codes "read station ") key (json.unmarshal value) >>= λ found.
    with_reason (codes "invalid saved station ") key (normalize lib found) >>= λ p.
    if eq_bytes key (lib.to_lower p.name)
    then ok p
    else Base.err (message (codes "saved station key/name mismatch"))

unfoldable pub read_entries : Platform → Codec → List (Bytes × Bytes) → Result (List Profile)
unfolding read_entry
read_entries lib json [] = ok []
read_entries lib json ((key, value) ∷ rest) =
    read_entry lib json key value >>= λ p. read_entries lib json rest >>= λ ps. ok (p ∷ ps)

module _ (bolt : Bolt) where
  put_schema : bolt.Db → Result bolt.Db
  put_schema db =
      if bolt.has_bucket db records
      then Base.err (message (codes "station database is missing its schema"))
      else bolt.put db metadata schema_key (codes "1") >>= λ new. bolt.create new records

  -- The version that the database has, if it has one.
  check_schema : Option Bytes → bolt.Db → Result bolt.Db
  unfolding put_schema
  check_schema none db = put_schema db
  check_schema (some version) db =
      if eq_bytes version (codes "1")
      then bolt.create db records
      else Base.err (message (codes "unsupported station database schema; file left unchanged"))

  -- The transaction of `Open`.
  unfoldable pub prepare : bolt.Db → Result bolt.Db
  unfolding check_schema
  prepare db =
      bolt.create db metadata >>= λ new. check_schema (bolt.get new metadata schema_key) new

  prepared : bolt.Db × Option Error → Result bolt.Db
  prepared (db, none) = ok db
  prepared (db, some e) = Base.err e

  opened_with : Result bolt.Db → Result bolt.Db
  unfolding prepared
  opened_with (Base.err e) = Base.err (message (codes "open station database: " ++ error_text e))
  opened_with (ok db) = prepared (bolt.update prepare db)

  -- `Open`, given the answers of the calls that make the folder and open the file.
  unfoldable pub open_store : Bytes → Option Error → Result bolt.Db → Result bolt.Db
  unfolding opened_with
  open_store [] made opened = Base.err (message (codes "station database path is empty"))
  open_store (c ∷ path) (some e) opened = Base.err e
  open_store (c ∷ path) none opened = opened_with opened

  put_station : Platform → Profile → Bool → Bytes → bolt.Db → Result bolt.Db
  put_station lib p replace value db =
      let key = lib.to_lower p.name in
      if not replace && is_some (bolt.get db records key)
      then Base.err err_exists
      else bolt.put db records key value

  -- What `Save` does once the profile is normal and encoded.
  save_encoded : Platform → Profile → Bool → Result Bytes → bolt.Db → bolt.Db × Option Error
  unfolding put_station
  save_encoded lib p replace (Base.err e) db = (db, some e)
  save_encoded lib p replace (ok value) db = bolt.update (put_station lib p replace value) db

  save_normal : Platform → Codec → Result Profile → Bool → bolt.Db → bolt.Db × Option Error
  unfolding save_encoded
  save_normal lib json (Base.err e) replace db = (db, some e)
  save_normal lib json (ok p) replace db = save_encoded lib p replace (json.marshal p) db

  unfoldable pub save : Platform → Codec → Profile → Bool → bolt.Db → bolt.Db × Option Error
  unfolding save_normal
  save lib json p replace db = save_normal lib json (normalize lib p) replace db

  remove_station : Bytes → bolt.Db → Result bolt.Db
  remove_station key db =
      if is_some (bolt.get db records key)
      then bolt.remove db records key
      else Base.err err_not_found

  unfoldable pub delete : Platform → Bytes → bolt.Db → bolt.Db × Option Error
  unfolding remove_station
  delete lib name db = bolt.update (remove_station (lib.to_lower (trim_space name))) db

  unfoldable pub list : Platform → Codec → bolt.Db → Result (List Profile)
  list lib json db =
      read_entries lib json (bolt.entries db records) >>= λ profiles. ok (sorted lib profiles)
