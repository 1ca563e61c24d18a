-- ===== src/Throttle/Tabs/Keys.antt =====
-- The open addresses, as lists without repetition: the keys of the map `cabs` and the list `order`.
use go_dcc_ex_driver.Base.{
  is_in, Distinct, ◌≡◌, refl, ap, false, not, ◌&&◌, ◌||◌, List, [], ◌∷◌, ◌++◌, arith, if◌then◌else◌,
  suc, ◌≤◌, length, ℤ, eq_ℤ, eq_ℤ_iff, insert, delete, map_values, lookup, contains_key,
}
use go_dcc_ex_driver.Throttle.Tabs.{without, rename}

module _ {ℓ} {V : Type ℓ} where
  unfoldable pub keys : List (ℤ × V) → List ℤ
  keys [] = []
  keys ((k, v) ∷ m) = k ∷ keys m

pub is_in-append : (k j : ℤ) (xs : List ℤ) → is_in k (xs ++ j ∷ []) ≡ (is_in k xs || eq_ℤ j k)
unfolding is_in
is_in-append k j [] = ground arith
is_in-append k j (x ∷ xs) = ground (arith, is_in-append k j xs)

pub Distinct-append :
    (j : ℤ) (xs : List ℤ) → is_in j xs ≡ false → Distinct xs → Distinct (xs ++ j ∷ [])
unfolding Distinct is_in
Distinct-append j [] n d = (refl, tt)
Distinct-append j (x ∷ xs) n (a, d) =
    ground (arith, is_in-append x j xs, eq_ℤ_iff x j, eq_ℤ_iff j x, Distinct-append j xs)

pub is_in-without :
    (k j : ℤ) (xs : List ℤ) → is_in k (without j xs) ≡ (is_in k xs && not (eq_ℤ j k))
unfolding is_in without
is_in-without k j [] = refl
is_in-without k j (x ∷ xs) =
    ground (arith, is_in-without k j xs, eq_ℤ_iff x j, eq_ℤ_iff x k, eq_ℤ_iff j k)

pub without-Distinct : (j : ℤ) (xs : List ℤ) → Distinct xs → Distinct (without j xs)
unfolding Distinct without
without-Distinct j [] d = tt
without-Distinct j (x ∷ xs) (a, d) = ground (arith, is_in-without x j xs, without-Distinct j xs d)

pub is_in-rename :
    (k old next : ℤ) (xs : List ℤ)
    → is_in k (rename old next xs) ≡ (is_in k xs && not (eq_ℤ old k) || eq_ℤ next k && is_in old xs)
unfolding is_in rename
is_in-rename k old next [] = ground arith
is_in-rename k old next (x ∷ xs) =
    ground (arith, is_in-rename k old next xs, eq_ℤ_iff x old, eq_ℤ_iff x k, eq_ℤ_iff old k)

pub rename-Distinct :
    (old next : ℤ) (xs : List ℤ)
    → is_in next xs ≡ false
    → Distinct xs
    → Distinct (rename old next xs)
unfolding Distinct is_in rename
rename-Distinct old next [] n d = tt
rename-Distinct old next (x ∷ xs) n (a, d) = ground (
  arith,
  is_in-rename x old next xs,
  is_in-rename next old next xs,
  eq_ℤ_iff x old,
  eq_ℤ_iff x next,
  eq_ℤ_iff next x,
  eq_ℤ_iff old next,
  rename-Distinct old next xs,
)

-- A list of two or more has one left without any of its elements.
pub without_ne_nil : (j : ℤ) (xs : List ℤ) → Distinct xs → 2 ≤ length xs → 1 ≤ length (without j xs)
unfolding Distinct is_in without
without_ne_nil j [] d h = absurd (omega arith)
without_ne_nil j (x ∷ []) d h = absurd (omega arith)
without_ne_nil j (x ∷ y ∷ xs) (a, d) h = ground (arith, eq_ℤ_iff x j, eq_ℤ_iff y j, eq_ℤ_iff y x)

module _ {ℓ} {V : Type ℓ} where
  pub contains_key-keys : (k : ℤ) (m : List (ℤ × V)) → contains_key k m ≡ is_in k (keys m)
  unfolding keys is_in lookup
  contains_key-keys k [] = refl
  contains_key-keys k ((j, v) ∷ m) = ground (arith, contains_key-keys k m)

  pub length-keys : (m : List (ℤ × V)) → length (keys m) ≡ length m
  unfolding keys
  length-keys [] = refl
  length-keys ((j, v) ∷ m) = ap suc (length-keys m)

  pub keys-insert :
      (k : ℤ) (v : V) (m : List (ℤ × V))
      → keys (insert k v m) ≡ (if is_in k (keys m) then keys m else keys m ++ k ∷ [])
  unfolding keys is_in insert
  keys-insert k v [] = refl
  keys-insert k v ((j, w) ∷ m) = ground (arith, keys-insert k v m, eq_ℤ_iff j k)

  pub keys-delete : (k : ℤ) (m : List (ℤ × V)) → keys (delete k m) ≡ without k (keys m)
  unfolding keys delete without
  keys-delete k [] = refl
  keys-delete k ((j, w) ∷ m) = ground (arith, keys-delete k m)

  pub keys-map_values : (f : V → V) (m : List (ℤ × V)) → keys (map_values f m) ≡ keys m
  unfolding keys map_values
  keys-map_values f [] = refl
  keys-map_values f ((j, w) ∷ m) = ap (◌∷◌ j) (keys-map_values f m)
