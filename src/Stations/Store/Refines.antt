-- ===== src/Stations/Store/Refines.antt =====
-- stations/store.go: that the database is a map from lower-cased names to profiles.
use go_dcc_ex_driver.Base.{
  ◌≡◌, refl, sym, ap, ◌∙◌, subst, ◌⊎◌, inl, inr, Bool, true, false, not, ◌&&◌, List, [], ◌∷◌,
  Option, none, some, if◌then◌else◌, Bool-cases, Option-cases, arith, Bytes, eq_bytes,
  eq_bytes_refl, eq_bytes_sound, valid_utf8, All, trim_space, Error, Result, ok, then_ok, else_ok,
  Result-cases, message, codes,
}
use go_dcc_ex_driver.Base
use go_dcc_ex_driver.Stations.Profile.{Profile, Platform, normalize}
use go_dcc_ex_driver.Stations.Profile.Valid.{IsNormal, normalize-IsNormal}
use go_dcc_ex_driver.Stations.Store.{
  Bolt, Codec, records, is_some, put_station, save_encoded, save_normal, save, remove_station,
  delete,
}

-- A change to a database in a transaction, seen from outside: it fails and changes nothing, or it is
-- made.
abbrev pub Outcome {ℓ} : {D : Type ℓ} → (D → Result D) → D → D × Option Error → Type ℓ
Outcome change db r = ((e : Error) × (r ≡ (db, some e))) ⊎ ((r.1 ≡ none) × (change db ≡ ok r.0))

-- What bbolt says of its transactions and buckets: a transaction is made whole or not at all, a value
-- that is put is found under its key, a key that is removed has none, and all other keys keep theirs.
pub record BoltLaws (bolt : Bolt) : Type 0 where
  pub atomic :
      (change : bolt.Db → Result bolt.Db) (db : bolt.Db) → Outcome change db (bolt.update change db)
  pub get-put :
      (db new : bolt.Db) (bucket key value b k : Bytes)
      → bolt.put db bucket key value ≡ ok new
      → bolt.get new b k
        ≡ (if eq_bytes bucket b && eq_bytes key k then some value else bolt.get db b k)
  pub get-remove :
      (db new : bolt.Db) (bucket key b k : Bytes)
      → bolt.remove db bucket key ≡ ok new
      → bolt.get new b k ≡ (if eq_bytes bucket b && eq_bytes key k then none else bolt.get db b k)

-- A normal profile whose texts are valid UTF-8 survives its encoding. Of the texts of a normal profile
-- only the host may be none: `NormalizeHost` returns an address before it looks at the encoding, and
-- the zone of an address may hold any bytes.
pub record CodecLaws (lib : Platform) (json : Codec) : Type 0 where
  pub unmarshal-marshal :
      (p : Profile) (value : Bytes)
      → IsNormal lib p
      → valid_utf8 p.host ≡ true
      → json.marshal p ≡ ok value
      → json.unmarshal value ≡ ok p

-- The abstract view of a database.
abbrev pub Stations : Type 0
Stations = Bytes → Option Profile

abbrev pub found : Result Profile → Option Profile
found (ok p) = some p
found (Base.err e) = none

abbrev pub read_value : Codec → Option Bytes → Option Profile
read_value json none = none
read_value json (some value) = found (json.unmarshal value)

pub data StoreCall : Type 0 where
  saves : Profile → Bool → StoreCall
  deletes : Bytes → StoreCall

abbrev host_is_utf8 : Result Profile → Bool
host_is_utf8 (Base.err e) = true
host_is_utf8 (ok p) = valid_utf8 p.host

-- The host that a call saves, if it saves one, is valid UTF-8.
unfoldable pub is_utf8 : Platform → StoreCall → Bool
is_utf8 lib (saves p replace) = host_is_utf8 (normalize lib p)
is_utf8 lib (deletes name) = true

abbrev pub write : Bytes → Option Profile → Stations → Stations
write key value m k = if eq_bytes key k then value else m k

abbrev saved : Platform → Result Profile → Stations → Stations
saved lib (Base.err e) m = m
saved lib (ok p) m = write (lib.to_lower p.name) (some p) m

-- What a call that succeeds does to the map.
unfoldable pub effect : Platform → StoreCall → Stations → Stations
effect lib (saves p replace) m = saved lib (normalize lib p) m
effect lib (deletes name) m = write (lib.to_lower (trim_space name)) none m

-- The calls that succeed, one after the other.
unfoldable pub effects : Platform → List StoreCall → List (Option Error) → Stations → Stations
effects lib [] errors m = m
effects lib (call ∷ calls) [] m = m
effects lib (call ∷ calls) (none ∷ errors) m = effects lib calls errors (effect lib call m)
effects lib (call ∷ calls) (some e ∷ errors) m = effects lib calls errors m

module _ (bolt : Bolt) (lib : Platform) (json : Codec) where
  unfoldable pub find : bolt.Db → Stations
  find db key = read_value json (bolt.get db records key)

  unfoldable pub perform : StoreCall → bolt.Db → bolt.Db × Option Error
  unfolding save delete
  perform (saves p replace) db = save bolt lib json p replace db
  perform (deletes name) db = delete bolt lib name db

  unfoldable pub perform_all : List StoreCall → bolt.Db → bolt.Db × List (Option Error)
  unfolding perform
  perform_all [] db = (db, [])
  perform_all (call ∷ calls) db =
      let r = perform call db in let rest = perform_all calls r.0 in (rest.0, r.1 ∷ rest.1)

  -- There is a station under this key.
  abbrev pub has_station : bolt.Db → Bytes → Bool
  has_station db key = is_some (bolt.get db records key)

  -- The key of a call, and whether it needs a station under it, or none.
  abbrev pub Allowed : StoreCall → bolt.Db → Type 0
  Allowed (saves p replace) db =
      (q : Profile) × (normalize lib p ≡ ok q)
      × ((replace ≡ true) ⊎ (has_station db (lib.to_lower q.name) ≡ false))
  Allowed (deletes name) db = has_station db (lib.to_lower (trim_space name)) ≡ true

  -- A call fails and changes nothing, or it was allowed and does what it does to the map.
  abbrev pub Refined : StoreCall → bolt.Db → bolt.Db × Option Error → Type 0
  Refined call db r =
      ((e : Error) × (r ≡ (db, some e)))
      ⊎ ((r.1 ≡ none) × Allowed call db × (find r.0 ≡ effect lib call (find db)))

  may_put : (a b : Bool) → (not a && b) ≡ false → (a ≡ true) ⊎ (b ≡ false)
  may_put true b h = inl refl
  may_put false b h = inr h

  chosen_value :
      (b : Bool) (value : Bytes) (p : Profile) (old : Option Bytes)
      → json.unmarshal value ≡ ok p
      → read_value json (if true && b then some value else old)
        ≡ (if b then some p else read_value json old)
  chosen_value true value p old h = ap found h
  chosen_value false value p old h = refl

  chosen_none :
      (b : Bool) (old : Option Bytes)
      → read_value json (if true && b then none else old)
        ≡ (if b then none else read_value json old)
  chosen_none true old = refl
  chosen_none false old = refl

  module _ (laws : BoltLaws bolt) (codec : CodecLaws lib json) where
    write_there :
        (key k value : Bytes) (p : Profile) (old : Option Bytes)
        → json.unmarshal value ≡ ok p
        → read_value json (if eq_bytes records records && eq_bytes key k then some value else old)
          ≡ (if eq_bytes key k then some p else read_value json old)
    write_there key k value p old h =
        rw (eq_bytes_refl records) (chosen_value (eq_bytes key k) value p old h)

    erase_there :
        (key k : Bytes) (old : Option Bytes)
        → read_value json (if eq_bytes records records && eq_bytes key k then none else old)
          ≡ (if eq_bytes key k then none else read_value json old)
    erase_there key k old = rw (eq_bytes_refl records) (chosen_none (eq_bytes key k) old)

    removed-find :
        (key : Bytes) (db new : bolt.Db)
        → remove_station bolt key db ≡ ok new
        → (has_station db key ≡ true) × (find new ≡ write key none (find db))
    unfolding remove_station find
    removed-find key db new h =
        let (there, gone) = then_ok _ _ (bolt.remove db records key) new h in
        (
          there,
          λ i k.
              (ap (read_value json) (laws.get-remove db new records key records k gone)
                  ∙ erase_there key k (bolt.get db records k))
                i,
        )

    put-find :
        (p : Profile) (replace : Bool) (value : Bytes) (db new : bolt.Db)
        → IsNormal lib p
        → valid_utf8 p.host ≡ true
        → json.marshal p ≡ ok value
        → put_station bolt lib p replace value db ≡ ok new
        → ((replace ≡ true) ⊎ (has_station db (lib.to_lower p.name) ≡ false))
          × (find new ≡ write (lib.to_lower p.name) (some p) (find db))
    unfolding put_station find
    put-find p replace value db new normal utf8 encoded h =
        let key = lib.to_lower p.name in
        let (free, put) = else_ok _ _ (bolt.put db records key value) new h in
        (
          may_put replace (is_some (bolt.get db records key)) free,
          λ i k.
              (ap (read_value json) (laws.get-put db new records key value records k put)
                  ∙ write_there key k value p (bolt.get db records k)
                      (codec.unmarshal-marshal p value normal utf8 encoded))
                i,
        )

    deleted-Refined :
        (name : Bytes) (db : bolt.Db) → Refined (deletes name) db (delete bolt lib name db)
    unfolding delete effect
    deleted-Refined name db =
        elim (laws.atomic (remove_station bolt (lib.to_lower (trim_space name))) db) [
          | inl failed ↦ inl failed
          | inr (fine, made) ↦
              let (there, gone) = removed-find _ db _ made in inr (fine, there, gone)
        ]

    encoded-Refined :
        (p q : Profile) (replace : Bool) (data_of : Result Bytes) (db : bolt.Db)
        → normalize lib p ≡ ok q
        → valid_utf8 q.host ≡ true
        → json.marshal q ≡ data_of
        → Refined (saves p replace) db (save_encoded bolt lib q replace data_of db)
    unfolding save_encoded effect
    encoded-Refined p q replace (Base.err e) db n utf8 m = inl (e, refl)
    encoded-Refined p q replace (ok value) db n utf8 m =
        let (name, normal) = normalize-IsNormal lib p q n in
        elim (laws.atomic (put_station bolt lib q replace value) db) [
          | inl failed ↦ inl failed
          | inr (fine, made) ↦
              let (free, there) = put-find q replace value db _ normal utf8 m made in
              inr (fine, (q, n, free), there ∙ ap (λ r. saved lib r (find db)) (sym n))
        ]

    normal-Refined :
        (p : Profile) (replace : Bool) (r : Result Profile) (db : bolt.Db)
        → normalize lib p ≡ r
        → host_is_utf8 r ≡ true
        → Refined (saves p replace) db (save_normal bolt lib json r replace db)
    unfolding save_normal
    normal-Refined p replace (Base.err e) db n utf8 = inl (e, refl)
    normal-Refined p replace (ok q) db n utf8 =
        encoded-Refined p q replace (json.marshal q) db n utf8 refl

    -- Saving a station whose normal host, if it has a normal form, is valid UTF-8, or deleting one, on a
    -- database that keeps the laws of bbolt with a codec that keeps normal profiles of valid UTF-8,
    -- either fails and leaves the database as it was, or returns nil. Then the call was allowed, that is,
    -- the profile has a normal form, under whose lower-cased name no station was if it must not be
    -- replaced, or there was a station of the name that is deleted; and the database seen as a map
    -- differs in that one name, which has the normal profile or none.
    pub perform-Refined :
        (call : StoreCall) (db : bolt.Db)
        → is_utf8 lib call ≡ true
        → Refined call db (perform call db)
    unfolding perform save is_utf8
    perform-Refined (saves p replace) db utf8 =
        normal-Refined p replace (normalize lib p) db refl utf8
    perform-Refined (deletes name) db utf8 = deleted-Refined name db

    -- On a database that keeps the laws of bbolt with a codec that keeps normal profiles of valid UTF-8,
    -- the map behind any sequence of calls, whose saved profiles have normal hosts of valid UTF-8, is
    -- that before them, changed by those calls that succeeded, in their order.
    pub find-perform_all :
        (calls : List StoreCall) (db : bolt.Db)
        → All (λ call. is_utf8 lib call ≡ true) calls
        → find (perform_all calls db).0 ≡ effects lib calls (perform_all calls db).1 (find db)
    unfolding perform_all effects
    find-perform_all [] db utf8 = refl
    find-perform_all (call ∷ calls) db (utf8, rest) = elim (perform-Refined call db utf8) [
      | inl (e, failed) ↦ rw failed (find-perform_all calls db rest)
      | inr (fine, free, there) ↦
          let next = (perform call db).0 in
          rw fine (
            find-perform_all calls next rest
            ∙ ap (effects lib calls (perform_all calls next).1) there)
    ]
