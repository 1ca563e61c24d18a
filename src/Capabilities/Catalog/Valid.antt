-- ===== src/Capabilities/Catalog/Valid.antt =====
-- `Validate` decides a specification that names no loop, and `Supports` is exact.
use go_dcc_ex_driver.Base.{
  ℕ, ◌≡◌, ◌↔◌, ◌≢◌, ◌⊎◌, true, false, List, [], ◌∷◌, none, arith, is_empty_iff, Bytes,
  eq_bytes_sound, eq_bytes_refl, trim_space,
}
use go_dcc_ex_driver.Capabilities.Catalog.{
  Feature, Catalog, seen_id, contains, good_versions, bad_identifier, validate_features, validate,
  any_supports, supports,
}

-- `v` is one of `vs`.
abbrev pub In : ℕ → List ℕ → Type 0
In v [] = ⊥
In v (x ∷ xs) = (v ≡ x) ⊎ In v xs

-- No version is 0, none stands twice, and none is among `seen`.
abbrev pub Versions : List ℕ → List ℕ → Type 0
Versions seen [] = Unit
Versions seen (v ∷ vs) = (v ≢ 0) × (¬ In v seen) × Versions (v ∷ seen) vs

abbrev pub InIds : Bytes → List Bytes → Type 0
InIds id [] = ⊥
InIds id (x ∷ xs) = (id ≡ x) ⊎ InIds id xs

-- Each identifier is a text with no white space at its ends, seen once, and each feature has a
-- version at least, all different and positive.
abbrev pub Features : List Bytes → List Feature → Type 0
Features ids [] = Unit
Features ids (f ∷ fs) =
    (f.id ≢ [])
    × (trim_space f.id ≡ f.id)
    × (¬ InIds f.id ids)
    × (f.versions ≢ [])
    × Versions [] f.versions
    × Features (f.id ∷ ids) fs

pub record IsValid (c : Catalog) : Type 0 where
  pub schema : c.schema_version ≢ 0
  pub features_valid : Features [] c.features

pub contains_iff : (vs : List ℕ) (v : ℕ) → (contains vs v ≡ true) ↔ In v vs
unfolding contains
contains_iff [] v = ground arith
contains_iff (x ∷ xs) v = ground (arith, contains_iff xs v)

seen_id_iff : (ids : List Bytes) (id : Bytes) → (seen_id id ids ≡ true) ↔ InIds id ids
unfolding seen_id
seen_id_iff [] id = ground arith
seen_id_iff (x ∷ xs) id = ground (arith, seen_id_iff xs id, eq_bytes_sound id x, eq_bytes_refl id)

good_versions_iff : (seen vs : List ℕ) → (good_versions seen vs ≡ true) ↔ Versions seen vs
unfolding good_versions
good_versions_iff seen [] = ground arith
good_versions_iff seen (v ∷ vs) =
    ground (arith, contains_iff seen v, good_versions_iff (v ∷ seen) vs)

bad_identifier_iff :
    (ids : List Bytes) (id : Bytes)
    → (bad_identifier ids id ≡ false) ↔ ((id ≢ []) × (trim_space id ≡ id) × (¬ InIds id ids))
unfolding bad_identifier
bad_identifier_iff ids [] = ground arith
bad_identifier_iff ids (c ∷ s) = ground (
  arith,
  seen_id_iff ids (c ∷ s),
  eq_bytes_sound (trim_space (c ∷ s)) (c ∷ s),
  eq_bytes_refl (c ∷ s),
)

validate_features_iff :
    (ids : List Bytes) (fs : List Feature) → (validate_features ids fs ≡ none) ↔ Features ids fs
unfolding validate_features
validate_features_iff ids [] = ground arith
validate_features_iff ids (f ∷ fs) = ground (
  arith,
  bad_identifier_iff ids f.id,
  is_empty_iff f.versions,
  good_versions_iff [] f.versions,
  validate_features_iff (f.id ∷ ids) fs,
)

-- `Validate` accepts exactly the catalogues with a positive schema version, identifiers that are
-- non-empty, without white space at the ends and pairwise different, and for each feature at least
-- one version, all positive and pairwise different.
pub validate_iff : (c : Catalog) → (validate c ≡ none) ↔ IsValid c
unfolding validate
validate_iff c = (
  λ h. record {
    schema = ground arith;
    features_valid = ground (arith, validate_features_iff [] c.features);
  },
  λ v. ground (arith, v.schema, (validate_features_iff [] c.features).1 v.features_valid),
)

-- Some feature has this identifier and this version.
abbrev pub Offers : List Feature → Bytes → ℕ → Type 0
Offers [] id version = ⊥
Offers (f ∷ fs) id version = ((f.id ≡ id) × In version f.versions) ⊎ Offers fs id version

any_supports_iff :
    (fs : List Feature) (id : Bytes) (version : ℕ)
    → (any_supports fs id version ≡ true) ↔ Offers fs id version
unfolding any_supports
any_supports_iff [] id version = ground arith
any_supports_iff (f ∷ fs) id version = ground (
  arith,
  eq_bytes_sound f.id id,
  eq_bytes_refl id,
  contains_iff f.versions version,
  any_supports_iff fs id version,
)

-- A capability is supported exactly if the catalogue has this very schema version, the version is
-- positive, and a feature with this identifier lists it; no newer or unknown version grants it.
pub supports_iff :
    (c : Catalog) (schema : ℕ) (id : Bytes) (version : ℕ)
    → (supports c schema id version ≡ true)
      ↔ ((schema ≢ 0) × (schema ≡ c.schema_version) × (version ≢ 0) × Offers c.features id version)
unfolding supports
supports_iff c schema id version = ground (arith, any_supports_iff c.features id version)
