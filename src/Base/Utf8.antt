-- ===== src/Base/Utf8.antt =====
-- `utf8.ValidString` and `utf8.RuneCountInString`, by the table of first and second bytes of RFC 3629.
use Prim.Native.Nat.{ℕ, zero, suc, ◌+◌, ◌<◌}
use mathlib.Core.Path.{◌≡◌, refl}
use mathlib.Core.Bool.{Bool, true, false, ◌&&◌, ◌||◌}
use mathlib.Core.List.{[], ◌∷◌}
use native.Mathlib.Omega.{arith}
use go_dcc_ex_driver.Base.Tests.{ltb, leb, ◌==◌, if◌then◌else◌}
use go_dcc_ex_driver.Base.Lists.{All}
use go_dcc_ex_driver.Base.Text.{Bytes}

-- What a first byte asks for: how many bytes follow, and the bounds of the next one.
record Lead : Type 0 where
  valid : Bool
  more : ℕ
  low : ℕ
  high : ℕ

tail_of : ℕ → ℕ → ℕ → Lead
tail_of more low high = record { valid = true; more = more; low = low; high = high }

lead : ℕ → Lead
unfolding tail_of
lead c =
    if ltb c 0x80
    then tail_of 0 0x80 0xbf
    else if leb 0xc2 c && leb c 0xdf
    then tail_of 1 0x80 0xbf
    else if c == 0xe0
    then tail_of 2 0xa0 0xbf
    else if c == 0xed
    then tail_of 2 0x80 0x9f
    else if leb 0xe1 c && leb c 0xef
    then tail_of 2 0x80 0xbf
    else if c == 0xf0
    then tail_of 3 0x90 0xbf
    else if leb 0xf1 c && leb c 0xf3
    then tail_of 3 0x80 0xbf
    else if c == 0xf4
    then tail_of 3 0x80 0x8f
    else record { valid = false; more = 0; low = 0; high = 0 }

-- The first argument counts the bytes that the current rune still needs, the next one between the
-- two bounds.
utf8_from : ℕ → ℕ → ℕ → Bytes → Bool
unfolding lead
utf8_from zero low high [] = true
utf8_from (suc n) low high [] = false
utf8_from zero low high (c ∷ s) =
    (lead c).valid && utf8_from (lead c).more (lead c).low (lead c).high s
utf8_from (suc n) low high (c ∷ s) = leb low c && leb c high && utf8_from n 0x80 0xbf s

unfoldable pub valid_utf8 : Bytes → Bool
unfolding utf8_from
valid_utf8 s = utf8_from 0 0x80 0xbf s

-- In valid text each byte that is no continuation begins a rune.
unfoldable pub rune_count : Bytes → ℕ
rune_count [] = 0
rune_count (c ∷ s) = (if ltb c 0x80 || leb 0xc0 c then 1 else 0) + rune_count s

utf8_from-ascii : (low high : ℕ) (s : Bytes) → All (λ c. c < 128) s → utf8_from 0 low high s ≡ true
unfolding utf8_from
utf8_from-ascii low high [] h = refl
utf8_from-ascii low high (c ∷ s) h = ground (arith, utf8_from-ascii 0x80 0xbf s h.1)

pub valid_utf8-ascii : (s : Bytes) → All (λ c. c < 128) s → valid_utf8 s ≡ true
unfolding valid_utf8
valid_utf8-ascii s h = utf8_from-ascii 0x80 0xbf s h

valid_utf8_tests :
    (valid_utf8 (0xe2 ∷ 0x80 ∷ 0xa6 ∷ []) ≡ true)
    × (valid_utf8 (0xc0 ∷ 0x80 ∷ []) ≡ false)
    × (valid_utf8 (0xed ∷ 0xa0 ∷ 0x80 ∷ []) ≡ false)
    × (valid_utf8 (b'a' ∷ 0xe2 ∷ 0x80 ∷ []) ≡ false)
unfolding valid_utf8
valid_utf8_tests = (refl, refl, refl, refl)
