-- ===== src/Capabilities/Catalog.antt =====
-- dccex/capabilities/catalog.go: what a station advertises, and its validation.
pub mod Valid
use go_dcc_ex_driver.Base.{
  ℕ, Bool, true, false, not, ◌&&◌, ◌||◌, List, [], ◌∷◌, map, Option, none, some, ◌==◌,
  if◌then◌else◌, is_empty, Bytes, eq_bytes, trim_space,
}

-- A nil and an empty map of details are read alike.
pub record Feature : Type 0 where
  pub id : Bytes
  pub versions : List ℕ  -- uint32
  pub description : Bytes
  pub details : List (Bytes × Bytes)

pub record Catalog : Type 0 where
  pub schema_version : ℕ  -- uint32
  pub features : List Feature

-- `Catalog{}`
abbrev pub empty_catalog : Catalog
empty_catalog = record { schema_version = 0; features = [] }

pub data CatalogError : Type 0 where
  bad_schema : CatalogError
  bad_id no_version bad_version : Bytes → CatalogError

-- `ids[feature.ID]`, of the identifiers seen so far
unfoldable pub seen_id : Bytes → List Bytes → Bool
seen_id id [] = false
seen_id id (x ∷ xs) = eq_bytes id x || seen_id id xs

-- `versions[version]`, and `slices.Contains`
unfoldable pub contains : List ℕ → ℕ → Bool
contains [] v = false
contains (x ∷ xs) v = v == x || contains xs v

-- The loop over the versions of a feature: whether it runs to its end.
unfoldable pub good_versions : List ℕ → List ℕ → Bool
unfolding contains
good_versions seen [] = true
good_versions seen (v ∷ vs) = not (v == 0 || contains seen v) && good_versions (v ∷ seen) vs

unfoldable pub bad_identifier : List Bytes → Bytes → Bool
unfolding seen_id
bad_identifier ids id = is_empty id || not (eq_bytes (trim_space id) id) || seen_id id ids

-- The loop over the features, with the identifiers seen.
unfoldable pub validate_features : List Bytes → List Feature → Option CatalogError
validate_features ids [] = none
validate_features ids (f ∷ fs) =
    if bad_identifier ids f.id
    then some (bad_id f.id)
    else if is_empty f.versions
    then some (no_version f.id)
    else if not (good_versions [] f.versions)
    then some (bad_version f.id)
    else validate_features (f.id ∷ ids) fs

unfoldable pub validate : Catalog → Option CatalogError
validate c = if c.schema_version == 0 then some bad_schema else validate_features [] c.features

-- The loop of `Supports`.
unfoldable pub any_supports : List Feature → Bytes → ℕ → Bool
any_supports [] id version = false
any_supports (f ∷ fs) id version =
    (eq_bytes f.id id && contains f.versions version) || any_supports fs id version

unfoldable pub supports : Catalog → ℕ → Bytes → ℕ → Bool
supports c schema id version =
    not (schema == 0 || not (schema == c.schema_version) || version == 0)
    && any_supports c.features id version

-- Values here are never written through, so the copy of a feature is the feature.
clone_feature : Feature → Feature
clone_feature f = record {
  id = f.id;
  versions = f.versions;
  description = f.description;
  details = f.details;
}

unfoldable pub clone : Catalog → Catalog
unfolding clone_feature
clone c = record c { features = map clone_feature c.features }
