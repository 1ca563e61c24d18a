-- ===== src/Config/DisplayName.antt =====
-- config/display_name.go: names of tabs and of functions.
use go_dcc_ex_driver.Base.{
  ℕ, zero, suc, ◌+◌, ◌-◌, ◌*◌, ◌≤◌, ◌<◌, ◌≡◌, ◌≢◌, ◌↔◌, ◌⊎◌, Bool, true, not, ◌||◌, ◌&&◌, List, [],
  ◌∷◌, Option, none, some, ltb, ◌==◌, if◌then◌else◌, arith, length, All, Bytes, codes, Error,
  message, valid_utf8,
}

-- The runes that `range` gives of valid UTF-8, behind a rune of which `need` bytes are still to come
-- and whose bits so far are `rune`.
unfoldable pub runes_from : ℕ → ℕ → Bytes → List ℕ
runes_from need rune [] = []
runes_from zero rune (b ∷ s) =
    if ltb b 0x80
    then b ∷ runes_from 0 0 s
    else if ltb b 0xe0
    then runes_from 1 (b - 0xc0) s
    else if ltb b 0xf0
    then runes_from 2 (b - 0xe0) s
    else runes_from 3 (b - 0xf0) s
runes_from (suc zero) rune (b ∷ s) = (rune * 64 + (b - 0x80)) ∷ runes_from 0 0 s
runes_from (suc (suc need)) rune (b ∷ s) = runes_from (suc need) (rune * 64 + (b - 0x80)) s

abbrev pub runes : Bytes → List ℕ
runes s = runes_from 0 0 s

-- `unicode.IsControl`: the runes of category Cc.
unfoldable pub is_control : ℕ → Bool
is_control r = ltb r 32 || not (ltb r 127) && ltb r 160

unfoldable pub breaks_line : ℕ → Bool
unfolding is_control
breaks_line r = is_control r || r == 0x2028 || r == 0x2029

-- The loop over the runes.
unfoldable pub check_runes : List ℕ → Option Error
unfolding breaks_line
check_runes [] = none
check_runes (r ∷ rs) =
    let rest = check_runes rs in
    if breaks_line r
    then some (message (codes "names must be a single line without control characters"))
    else rest

unfoldable pub validate_display_name : Bytes → Option Error
unfolding check_runes
validate_display_name name =
    if not (valid_utf8 name) || ltb 80 (length (runes name))
    then some (message (codes "names must contain at most 80 valid Unicode characters"))
    else check_runes (runes name)

-- A rune of one line: no control character and no line or paragraph separator.
abbrev pub IsPrintable : ℕ → Type 0
IsPrintable r = (32 ≤ r) × ((r < 127) ⊎ (160 ≤ r)) × (r ≢ 0x2028) × (r ≢ 0x2029)

check_runes_iff : (rs : List ℕ) → (check_runes rs ≡ none) ↔ All IsPrintable rs
unfolding check_runes breaks_line is_control
check_runes_iff [] = ground arith
check_runes_iff (r ∷ rs) = ground (arith, check_runes_iff rs)

-- A name is accepted exactly if it is UTF-8 and its runes are at most 80, none of them a control
-- character or a line separator.
pub validate_display_name_iff :
    (name : Bytes)
    → (validate_display_name name ≡ none)
      ↔ ((valid_utf8 name ≡ true) × (length (runes name) ≤ 80) × All IsPrintable (runes name))
unfolding validate_display_name
validate_display_name_iff name = ground (arith, check_runes_iff (runes name))
