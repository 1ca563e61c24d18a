-- ===== src/Protocol/Number.antt =====
-- dccex/protocol/validations.go: the range check of commands and the number parser of replies.
use go_dcc_ex_driver.Base.{
  ℕ, zero, suc, ◌+◌, ◌*◌, ◌-◌, ◌^◌, ◌<◌, ◌≡◌, refl, sym, ap, ◌∙◌, Bool, true, false, not, ◌&&◌,
  ◌||◌, [], ◌∷◌, arith, leb, ◌==◌, if◌then◌else◌, ℤ, pos, negsuc, ◌≤ℤ◌, ◌↔◌, Between, ltb_ℤ, Bytes,
  IsDigit, value, format_ℕ, format_ℤ, value-format_ℕ, format_ℕ-IsDigit, length-format_ℕ_pos, length,
  All, all, is_empty, range, not_number, number_range, Result, ok, err, ◌>>=◌, ◌>>◌, fail_if, ◌≢◌,
}

unfoldable pub in_range : Bytes → ℤ → ℤ → ℤ → Result (Unit {0})
in_range field n lo hi = fail_if (ltb_ℤ n lo || ltb_ℤ hi n) (range field n lo hi)

-- `c < '0' || c > '9'` of the loop over the runes. A byte of a rune beyond ASCII, or of no rune, is
-- at least 128, so the test of bytes is the test of runes.
unfoldable pub is_digit : ℕ → Bool
is_digit c = leb b'0' c && leb c b'9'

unfoldable pub is_negative : Bytes → Bool
is_negative [] = false
is_negative (c ∷ s) = c == b'-'

-- `digits`: the text behind a minus sign
unfoldable pub unsigned : Bytes → Bytes
unsigned [] = []
unsigned (c ∷ s) = if c == b'-' then s else c ∷ s

-- The value of a text that is digits behind an optional minus sign.
unfoldable pub signed : Bool → ℕ → ℤ
signed false n = pos n
signed true zero = pos 0
signed true (suc n) = negsuc n

abbrev pub min_int64 : ℤ
min_int64 = negsuc (2 ^ 63 - 1)

abbrev pub max_int64 : ℤ
max_int64 = pos (2 ^ 63 - 1)

-- `strconv.ParseInt(s, 10, 64)` of such a text: its one error is a value beyond 64 bits.
unfoldable pub parse_int : Bytes → Bytes → Result ℤ
parse_int field s =
    let n = signed (is_negative s) (value 0 (unsigned s)) in
    if ltb_ℤ n min_int64 || ltb_ℤ max_int64 n then err (number_range field s) else ok n

unfoldable pub number : Bytes → Bytes → ℤ → ℤ → Result ℤ
number field s lo hi = do
  fail_if (is_empty (unsigned s)) (not_number field)
  fail_if (not (all is_digit (unsigned s))) (not_number field)
  n ← parse_int field s
  fail_if (ltb_ℤ n lo || ltb_ℤ hi n) (number_range field s)
  ok n

-- The number that digits spell, each by its place.
unfoldable pub decimal : Bytes → ℕ
decimal [] = 0
decimal (c ∷ s) = (c - b'0') * 10 ^ length s + decimal s

abbrev pub IsNumeral : Bytes → Type 0
IsNumeral s = (s ≢ []) × All IsDigit s

abbrev pub minus : ℕ → ℤ
minus zero = pos 0
minus (suc n) = negsuc n

-- What the parser promises of a text, said without the parser: digits, at least one, that spell the
-- number, or a minus sign and digits that spell its negation.
pub data Spells (s : Bytes) (n : ℤ) : Type 0 where
  plainly : IsNumeral s → n ≡ pos (decimal s) → Spells s n
  negated :
      (digits : Bytes)
      → s ≡ b'-' ∷ digits
      → IsNumeral digits
      → n ≡ minus (decimal digits)
      → Spells s n

shift : (n d t u r : ℕ) → u ≡ 10 * t → (n * 10 + d) * t + r ≡ n * u + (d * t + r)
shift n d t u r h = rw h (omega arith)

value-decimal : (n : ℕ) (s : Bytes) → value n s ≡ n * 10 ^ length s + decimal s
unfolding value decimal
value-decimal n [] = omega arith
value-decimal n (c ∷ s) =
    value-decimal (n * 10 + (c - b'0')) s
    ∙ shift n (c - b'0') (10 ^ length s) (10 ^ suc (length s)) (decimal s) (omega arith)

value-zero : (s : Bytes) → value 0 s ≡ decimal s
value-zero s = value-decimal 0 s ∙ omega arith

-- The same, as the parser sees it.
IsParsed : Bytes → ℤ → Type 0
IsParsed s n = IsNumeral (unsigned s) × (n ≡ signed (is_negative s) (value 0 (unsigned s)))

unsigned_of_digits : (s : Bytes) → All IsDigit s → (unsigned s ≡ s) × (is_negative s ≡ false)
unfolding unsigned is_negative
unsigned_of_digits [] h = (refl, refl)
unsigned_of_digits (c ∷ s) h = ground arith

minus-signed : (n : ℕ) → minus n ≡ signed true n
unfolding signed
minus-signed zero = refl
minus-signed (suc n) = refl

signed-minus : (digits : Bytes) → minus (decimal digits) ≡ signed true (value 0 digits)
unfolding signed
signed-minus digits = rw (value-zero digits) (minus-signed (decimal digits))

Spells-IsParsed : (s : Bytes) (n : ℤ) → Spells s n → IsParsed s n
unfolding IsParsed signed
Spells-IsParsed s n (plainly (some_digits, digits) is) =
    let (bare, plus) = unsigned_of_digits s digits in
    rw (bare, plus, value-zero s) ((some_digits, digits), is)
Spells-IsParsed s n (negated digits is numeral spelt) =
    unfold unsigned is_negative in rw is (numeral, spelt ∙ signed-minus digits)

parsed_by :
    (b : Bool) (c : ℕ) (s : Bytes) (n : ℤ)
    → (c == b'-') ≡ b
    → IsNumeral (if b then s else c ∷ s)
    → n ≡ signed b (value 0 (if b then s else c ∷ s))
    → Spells (c ∷ s) n
unfolding signed
parsed_by true c s n is numeral spelt =
    negated s (ap (λ d. d ∷ s) (ground arith)) numeral (spelt ∙ sym (signed-minus s))
parsed_by false c s n is numeral spelt = plainly numeral (spelt ∙ ap pos (value-zero (c ∷ s)))

IsParsed-Spells : (s : Bytes) (n : ℤ) → IsParsed s n → Spells s n
unfolding IsParsed unsigned is_negative
IsParsed-Spells [] n h = absurd (h.0.0 refl)
IsParsed-Spells (c ∷ s) n h = parsed_by (c == b'-') c s n refl h.0 h.1

all-is_digit : (s : Bytes) → all is_digit s ≡ true → All IsDigit s
unfolding is_digit
all-is_digit [] h = tt
all-is_digit (c ∷ s) h = ground (arith, all-is_digit s)

all-is_digit_complete : (s : Bytes) → All IsDigit s → all is_digit s ≡ true
unfolding is_digit
all-is_digit_complete [] h = refl
all-is_digit_complete (c ∷ s) h = ground (arith, all-is_digit_complete s h.1)

pub in_range_bounds :
    (field : Bytes) (n lo hi : ℤ) → in_range field n lo hi ≡ ok tt → (lo ≤ℤ n) × (n ≤ℤ hi)
unfolding in_range
in_range_bounds field n lo hi h = ground arith

pub in_range_complete :
    (field : Bytes) (n lo hi : ℤ) → lo ≤ℤ n → n ≤ℤ hi → in_range field n lo hi ≡ ok tt
unfolding in_range
in_range_complete field n lo hi h k = ground arith

IsParsed-sound :
    (field s : Bytes) (lo hi : ℤ) {n : ℤ}
    → number field s lo hi ≡ ok n
    → IsParsed s n × (lo ≤ℤ n) × (n ≤ℤ hi)
unfolding number parse_int IsParsed
IsParsed-sound field s lo hi {n} h = ground (arith, all-is_digit (unsigned s))

IsParsed-complete :
    (field s : Bytes) (lo hi : ℤ) {n : ℤ}
    → IsParsed s n
    → lo ≤ℤ n
    → n ≤ℤ hi
    → min_int64 ≤ℤ lo
    → hi ≤ℤ max_int64
    → number field s lo hi ≡ ok n
unfolding number parse_int IsParsed
IsParsed-complete field s lo hi ((some_digits, digits), spelt) h k l m =
    ground (arith, all-is_digit_complete (unsigned s) digits, some_digits, spelt)

pub number_sound_lem :
    (field s : Bytes) (lo hi : ℤ) {n : ℤ}
    → number field s lo hi ≡ ok n
    → Spells s n × (lo ≤ℤ n) × (n ≤ℤ hi)
number_sound_lem field s lo hi {n} h =
    let (parsed, low, high) = IsParsed-sound field s lo hi h in
    (IsParsed-Spells s n parsed, low, high)

pub number_complete_lem :
    (field s : Bytes) (lo hi : ℤ) {n : ℤ}
    → Spells s n
    → lo ≤ℤ n
    → n ≤ℤ hi
    → min_int64 ≤ℤ lo
    → hi ≤ℤ max_int64
    → number field s lo hi ≡ ok n
number_complete_lem field s lo hi {n} w = IsParsed-complete field s lo hi (Spells-IsParsed s n w)

-- Within 64 bits, the number parser accepts exactly the texts of digits behind at most one minus sign
-- whose value lies between the field's bounds, and returns that value; it neither wraps nor truncates.
pub number_iff :
    (field s : Bytes) (lo hi n : ℤ)
    → min_int64 ≤ℤ lo
    → hi ≤ℤ max_int64
    → (number field s lo hi ≡ ok n) ↔ (Spells s n × Between lo n hi)
number_iff field s lo hi n l m = (
  λ h. let (w, low, high) = number_sound_lem field s lo hi h in (w, (low, high)),
  λ h. number_complete_lem field s lo hi h.0 h.1.0 h.1.1 l m,
)

pub ne-nil_of_pos : (s : Bytes) → 0 < length s → s ≢ []
ne-nil_of_pos s h e = absurd (omega (arith, ap length e))

format_ℕ-IsNumeral : (n : ℕ) → IsNumeral (format_ℕ n)
format_ℕ-IsNumeral n = (ne-nil_of_pos (format_ℕ n) (length-format_ℕ_pos n), format_ℕ-IsDigit n)

decimal-format_ℕ : (n : ℕ) → decimal (format_ℕ n) ≡ n
decimal-format_ℕ n = sym (value-zero (format_ℕ n)) ∙ value-format_ℕ n

-- The printed form of a number spells it.
pub format_ℤ-Spells : (n : ℤ) → Spells (format_ℤ n) n
unfolding format_ℤ signed
format_ℤ-Spells (pos n) = plainly (format_ℕ-IsNumeral n) (ap pos (sym (decimal-format_ℕ n)))
format_ℤ-Spells (negsuc n) =
    negated (format_ℕ (suc n)) refl (format_ℕ-IsNumeral (suc n))
      (ap minus (sym (decimal-format_ℕ (suc n))))

-- Printing a number and parsing it gives it back, if it lies within the field's bounds.
pub number-format_ℤ :
    (field : Bytes) (n lo hi : ℤ)
    → lo ≤ℤ n
    → n ≤ℤ hi
    → min_int64 ≤ℤ lo
    → hi ≤ℤ max_int64
    → number field (format_ℤ n) lo hi ≡ ok n
number-format_ℤ field n lo hi h k l m =
    number_complete_lem field (format_ℤ n) lo hi (format_ℤ-Spells n) h k l m
