-- ===== src/Base/Text.antt =====
-- Go strings as lists of bytes, with the parts of `strings`, `strconv` and `fmt` that the code uses.
use Prim.Native.Nat.{ℕ, zero, suc, ◌+◌, ◌-◌, ◌*◌, ◌/◌, ◌%◌, ◌≤◌, ◌<◌, ◌^◌}
use Prim.Native.Char.{code}
use Prim.Native.String.{String}
use mathlib.Core.Path.{◌≡◌, refl}
use mathlib.Core.Bool.{Bool, true, false, ◌&&◌}
use mathlib.Core.List.{List, [], ◌∷◌}
use native.Mathlib.Omega.{arith}
use native.Mathlib.Nat.{pow-suc}
use go_dcc_ex_driver.Base.Tests.{ltb, ◌==◌}
use go_dcc_ex_driver.Base.Lists.{All, length}
use go_dcc_ex_driver.Base.Int.{ℤ, pos, negsuc}

abbrev pub Bytes : Type 0
Bytes = List ℕ

-- The bytes of a literal; every literal of the code is ASCII but for the ellipsis of `Log`.
unfoldable pub codes : String → Bytes
codes String.[] = []
codes (String.◌∷◌ c s) = code c ∷ codes s

unfoldable pub eq_bytes : Bytes → Bytes → Bool
eq_bytes [] [] = true
eq_bytes [] (d ∷ t) = false
eq_bytes (c ∷ s) [] = false
eq_bytes (c ∷ s) (d ∷ t) = c == d && eq_bytes s t

pub eq_bytes_sound : (s t : Bytes) → eq_bytes s t ≡ true → s ≡ t
unfolding eq_bytes
eq_bytes_sound [] [] h = refl
eq_bytes_sound [] (d ∷ t) h = ground arith
eq_bytes_sound (c ∷ s) [] h = ground arith
eq_bytes_sound (c ∷ s) (d ∷ t) h = ground (arith, eq_bytes_sound s t)

pub eq_bytes_refl : (s : Bytes) → eq_bytes s s ≡ true
unfolding eq_bytes
eq_bytes_refl [] = refl
eq_bytes_refl (c ∷ s) = ground (arith, eq_bytes_refl s)

-- `strings.HasPrefix(s, p)`.
unfoldable pub has_prefix : Bytes → Bytes → Bool
has_prefix s [] = true
has_prefix [] (d ∷ p) = false
has_prefix (c ∷ s) (d ∷ p) = c == d && has_prefix s p

abbrev pub IsDigit : ℕ → Type 0
IsDigit c = (b'0' ≤ c) × (c ≤ b'9')

-- The number that decimal digits spell behind `n`.
unfoldable pub value : ℕ → Bytes → ℕ
value n [] = n
value n (c ∷ s) = value (n * 10 + (c - b'0')) s

-- `%d` of a number: one digit a round, the lowest first. `suc n` rounds are enough, since each round
-- divides by ten.
emit : ℕ → ℕ → Bytes → Bytes
emit zero n out = out
emit (suc fuel) n out = elim (ltb n 10) [
  | true ↦ (b'0' + n) ∷ out
  | false ↦ emit fuel (n / 10) ((b'0' + n % 10) ∷ out)
]

unfoldable pub format_ℕ : ℕ → Bytes
unfolding emit
format_ℕ n = emit (suc n) n []

unfoldable pub format_ℤ : ℤ → Bytes
unfolding format_ℕ
format_ℤ (pos n) = format_ℕ n
format_ℤ (negsuc n) = b'-' ∷ format_ℕ (suc n)

value-emit : (fuel n : ℕ) (out : Bytes) → n < fuel → value 0 (emit fuel n out) ≡ value n out
unfolding value emit
value-emit zero n out h = absurd (omega arith)
value-emit (suc fuel) n out h = ground (arith, value-emit fuel (n / 10) ((b'0' + n % 10) ∷ out))

pub value-format_ℕ : (n : ℕ) → value 0 (format_ℕ n) ≡ n
unfolding format_ℕ value
value-format_ℕ n = value-emit (suc n) n [] (omega arith)

emit-IsDigit : (fuel n : ℕ) (out : Bytes) → All IsDigit out → All IsDigit (emit fuel n out)
unfolding emit
emit-IsDigit zero n out h = h
emit-IsDigit (suc fuel) n out h = ground (arith, emit-IsDigit fuel (n / 10) ((b'0' + n % 10) ∷ out))

pub format_ℕ-IsDigit : (n : ℕ) → All IsDigit (format_ℕ n)
unfolding format_ℕ
format_ℕ-IsDigit n = emit-IsDigit (suc n) n [] tt

emit-ne-nil : (fuel n : ℕ) (out : Bytes) → n < fuel → 0 < length (emit fuel n out)
unfolding emit
emit-ne-nil zero n out h = absurd (omega arith)
emit-ne-nil (suc fuel) n out h = ground (arith, emit-ne-nil fuel (n / 10) ((b'0' + n % 10) ∷ out))

pub length-format_ℕ_pos : (n : ℕ) → 0 < length (format_ℕ n)
unfolding format_ℕ
length-format_ℕ_pos n = emit-ne-nil (suc n) n [] (omega arith)

length-emit :
    (k fuel n : ℕ) (out : Bytes) → n < 10 ^ suc k → length (emit fuel n out) ≤ suc k + length out
unfolding emit
length-emit k zero n out h = omega arith
length-emit zero (suc fuel) n out h = ground arith
length-emit (suc k) (suc fuel) n out h =
    let less : n / 10 < 10 ^ suc k = omega (arith, pow-suc 10 (suc k)) in
    ground (arith, length-emit k fuel (n / 10) ((b'0' + n % 10) ∷ out) less)

-- A number below a power of ten has at most that many digits.
pub length-format_ℕ : (k n : ℕ) → n < 10 ^ suc k → length (format_ℕ n) ≤ suc k
unfolding format_ℕ
length-format_ℕ k n h = omega (arith, length-emit k (suc n) n [] h)
