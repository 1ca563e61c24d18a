-- ===== src/Base/Space.antt =====
-- `strings.Fields` and `strings.TrimSpace` on the bytes of a text.
use Prim.Native.Nat.{ℕ, zero, suc, ◌-◌, ◌≤◌, ◌<◌}
use mathlib.Core.Path.{◌≡◌, refl, sym, ap}
use mathlib.Core.Bool.{Bool, true, false, ◌&&◌, ◌||◌}
use mathlib.Core.List.{List, [], ◌∷◌, ◌++◌, map, reverse, append_assoc, append-nil}
use mathlib.Core.Logic.{◌≢◌}
use native.Mathlib.Omega.{arith}
use go_dcc_ex_driver.Base.Tests.{ltb, leb, ◌==◌, if◌then◌else◌}
use go_dcc_ex_driver.Base.Lists.{All}
use go_dcc_ex_driver.Base.Text.{Bytes}

-- The white space of `unicode.IsSpace` that is one byte.
unfoldable pub is_space : ℕ → Bool
is_space c = leb 9 c && leb c 13 || c == 32

-- The white space beyond ASCII, as the second and third byte of its UTF-8 form: U+0085 and U+00A0,
-- U+1680, U+2000-200A, U+2028, U+2029, U+202F, U+205F and U+3000.
space_tail : ℕ → Bytes → ℕ
space_tail c (d ∷ e ∷ s) =
    if c == 0xc2 && (d == 0x85 || d == 0xa0)
    then 2
    else if (c == 0xe1 && d == 0x9a && e == 0x80)
        || (c == 0xe2
            && d == 0x80
            && (leb 0x80 e && leb e 0x8a || e == 0xa8 || e == 0xa9 || e == 0xaf))
        || (c == 0xe2 && d == 0x81 && e == 0x9f)
        || (c == 0xe3 && d == 0x80 && e == 0x80)
    then 3
    else 0
space_tail c (d ∷ []) = if c == 0xc2 && (d == 0x85 || d == 0xa0) then 2 else 0
space_tail c [] = 0

-- The bytes of the white-space rune that begins with `c`; 0 if none does. In valid UTF-8 the first
-- bytes tested above stand at the beginning of a rune only.
space_len : ℕ → Bytes → ℕ
unfolding space_tail is_space
space_len c s = if is_space c then 1 else space_tail c s

-- Each byte with the answer whether it belongs to white space. The first argument counts the bytes
-- left of a white-space rune that has begun.
mark : ℕ → Bytes → List (Bool × ℕ)
unfolding space_len
mark n [] = []
mark (suc n) (c ∷ s) = (true, c) ∷ mark n s
mark zero (c ∷ s) = (ltb 0 (space_len c s), c) ∷ mark (space_len c s - 1) s

flush : Bytes → List Bytes → List Bytes
flush [] rest = rest
flush (c ∷ s) rest = (c ∷ s) ∷ rest

fields_from : Bytes → List (Bool × ℕ) → List Bytes
unfolding flush
fields_from current [] = flush current []
fields_from current ((true, c) ∷ s) = flush current (fields_from [] s)
fields_from current ((false, c) ∷ s) = fields_from (current ++ c ∷ []) s

unfoldable pub fields : Bytes → List Bytes
unfolding fields_from mark
fields s = fields_from [] (mark 0 s)

drop_space : List (Bool × ℕ) → List (Bool × ℕ)
drop_space [] = []
drop_space ((true, c) ∷ s) = drop_space s
drop_space ((false, c) ∷ s) = (false, c) ∷ s

second : Bool × ℕ → ℕ
second (b, c) = c

unfoldable pub trim_space : Bytes → Bytes
unfolding drop_space mark second
trim_space s = map second (reverse (drop_space (reverse (drop_space (mark 0 s)))))

-- A visible ASCII byte.
abbrev pub IsPlain : ℕ → Type 0
IsPlain c = (33 ≤ c) × (c < 127)

space_len-plain : (c : ℕ) (s : Bytes) → IsPlain c → space_len c s ≡ 0
unfolding space_len
space_len-plain c [] h = ground arith
space_len-plain c (d ∷ []) h = ground arith
space_len-plain c (d ∷ e ∷ s) h = ground arith

fields_from-plain :
    (current w s : Bytes)
    → All IsPlain w
    → fields_from current (mark 0 (w ++ s)) ≡ fields_from (current ++ w) (mark 0 s)
unfolding fields_from mark
fields_from-plain current [] s h = ap (λ t. fields_from t (mark 0 s)) (sym (append-nil current))
fields_from-plain current (c ∷ w) s h = ground (
  arith,
  space_len-plain c (w ++ s) h.0,
  fields_from-plain (current ++ c ∷ []) w s h.1,
  append_assoc current (c ∷ []) w,
)

-- Each word behind a space.
unfoldable pub spaced : List Bytes → Bytes
spaced [] = []
spaced (w ∷ ws) = b' ' ∷ (w ++ spaced ws)

-- Visible ASCII bytes, at least one.
pub record IsWord (w : Bytes) : Type 0 where
  pub nonempty : w ≢ []
  pub plain : All IsPlain w

mark-space : (s : Bytes) → mark 0 (b' ' ∷ s) ≡ (true, b' ') ∷ mark 0 s
unfolding mark
mark-space s = refl

fields_from-spaced :
    (w : Bytes) (ws : List Bytes)
    → IsWord w
    → All IsWord ws
    → fields_from w (mark 0 (spaced ws)) ≡ w ∷ ws
unfolding fields_from spaced
fields_from-spaced [] ws h k = absurd (h.nonempty refl)
fields_from-spaced (c ∷ w) [] h k = unfold mark in refl
fields_from-spaced (c ∷ w) (v ∷ ws) h k = rw (
  mark-space (v ++ spaced ws),
  fields_from-plain [] v (spaced ws) k.0.plain,
  fields_from-spaced v ws k.0 k.1,
)

-- Words joined by single spaces are split into the same words.
pub fields-spaced :
    (w : Bytes) (ws : List Bytes) → IsWord w → All IsWord ws → fields (w ++ spaced ws) ≡ w ∷ ws
unfolding fields
fields-spaced w ws h k =
    rw (fields_from-plain [] w (spaced ws) h.plain, fields_from-spaced w ws h k)
