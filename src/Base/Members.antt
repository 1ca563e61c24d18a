-- ===== src/Base/Members.antt =====
-- Lists of addresses: membership and repetition.
use mathlib.Core.Path.{◌≡◌}
use mathlib.Core.Bool.{Bool, false, ◌||◌}
use mathlib.Core.Logic.{◌↔◌}
use mathlib.Core.List.{List, [], ◌∷◌}
use native.Mathlib.Omega.{arith}
use go_dcc_ex_driver.Base.Lists.{All}
use go_dcc_ex_driver.Base.Int.{ℤ, eq_ℤ}

unfoldable pub is_in : ℤ → List ℤ → Bool
is_in k [] = false
is_in k (x ∷ xs) = eq_ℤ x k || is_in k xs

unfoldable pub Distinct : List ℤ → Type 0
unfolding is_in
Distinct [] = Unit
Distinct (x ∷ xs) = (is_in x xs ≡ false) × Distinct xs

pub is_in_none : (k : ℤ) (xs : List ℤ) → (is_in k xs ≡ false) ↔ All (λ x. eq_ℤ x k ≡ false) xs
unfolding is_in
is_in_none k [] = ground arith
is_in_none k (x ∷ xs) = ground (arith, is_in_none k xs)
