-- ===== src/Base/Maps.antt =====
-- Go maps with integer keys, as association lists. A write keeps the place of its key.
use mathlib.Core.Path.{◌≡◌, refl}
use mathlib.Core.Bool.{Bool, true, false}
use mathlib.Core.List.{List, [], ◌∷◌}
use mathlib.Core.Option.{Option, none, some}
use native.Mathlib.Omega.{arith}
use go_dcc_ex_driver.Base.Tests.{if◌then◌else◌}
use go_dcc_ex_driver.Base.Int.{ℤ, eq_ℤ, eq_ℤ_iff}

module _ {ℓ} {V : Type ℓ} where
  unfoldable pub lookup : ℤ → List (ℤ × V) → Option V
  lookup key [] = none
  lookup key ((i, x) ∷ rest) = if eq_ℤ i key then some x else lookup key rest

  unfoldable pub insert : ℤ → V → List (ℤ × V) → List (ℤ × V)
  insert key x [] = (key, x) ∷ []
  insert key x ((i, y) ∷ rest) = if eq_ℤ i key then (key, x) ∷ rest else (i, y) ∷ insert key x rest

  unfoldable pub delete : ℤ → List (ℤ × V) → List (ℤ × V)
  delete k [] = []
  delete k ((j, w) ∷ m) = if eq_ℤ j k then delete k m else (j, w) ∷ delete k m

  unfoldable pub map_values : (V → V) → List (ℤ × V) → List (ℤ × V)
  map_values f [] = []
  map_values f ((j, w) ∷ m) = (j, f w) ∷ map_values f m

  abbrev pub contains_key : ℤ → List (ℤ × V) → Bool
  contains_key k m = elim (lookup k m) [ none ↦ false | some v ↦ true ]

module _ {ℓ} {V : Type ℓ} where
  pub lookup-insert :
      (k j : ℤ) (v : V) (m : List (ℤ × V))
      → lookup j (insert k v m) ≡ (if eq_ℤ k j then some v else lookup j m)
  unfolding lookup insert
  lookup-insert k j v [] = refl
  lookup-insert k j v ((i, w) ∷ m) =
      ground (arith, eq_ℤ_iff k j, eq_ℤ_iff i k, eq_ℤ_iff i j, lookup-insert k j v m)

  pub lookup-delete :
      (k j : ℤ) (m : List (ℤ × V)) → lookup j (delete k m) ≡ (if eq_ℤ k j then none else lookup j m)
  unfolding lookup delete
  lookup-delete k j [] = ground arith
  lookup-delete k j ((i, w) ∷ m) =
      ground (arith, eq_ℤ_iff k j, eq_ℤ_iff i k, eq_ℤ_iff i j, lookup-delete k j m)

  pub lookup-map_values :
      (f : V → V) (k : ℤ) (m : List (ℤ × V))
      → lookup k (map_values f m) ≡ (elim (lookup k m) [ none ↦ none | some v ↦ some (f v) ])
  unfolding lookup map_values
  lookup-map_values f k [] = refl
  lookup-map_values f k ((i, w) ∷ m) = ground (arith, lookup-map_values f k m)
