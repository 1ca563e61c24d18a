-- ===== src/Config/Settings/Roundtrip.antt =====
-- config/config.go: that function modes that were written are read again.
use go_dcc_ex_driver.Base.{
  ◌≡◌, refl, sym, ap, ◌∙◌, subst, ℕ, zero, suc, ◌+◌, ◌≤◌, ◌<◌, Bool, true, false, List, [], ◌∷◌,
  ◌++◌, ◌^◌, All, append_assoc, map, none, arith, ltb, if◌then◌else◌, ◌||◌, is_empty, length,
  length-append, take, set, replicate, pos, Bytes, codes, eq_bytes, ok,
}
use go_dcc_ex_driver.Config.Codec.{limit}
use go_dcc_ex_driver.Config.Settings.{
  Settings, SettingsJson, number_or_text, mark, read_elements, read_toggle, read_document,
  or_default, decode, enabled, encode,
}

-- What the encoder writes, the decoder reads: an array, whose elements are these numbers, of which
-- each that is an `int` is read as one.
pub record SettingsLaws (json : SettingsJson) : Type 0 where
  pub digits : ℕ → Bytes
  pub int_of-digits : (n : ℕ) → n < 2 ^ 63 → json.int_of (digits n) ≡ ok (pos n)
  pub first-write :
      (ns : List ℕ) (text : Bytes)
      → All (λ n. n < 2 ^ 63) ns
      → json.write ns ≡ ok text
      → (raw : Bytes) × (rest : Bytes) × (json.first text ≡ ok (raw, rest))
        × (json.at_end rest ≡ true)
        × ((is_empty raw || eq_bytes raw (codes "null")) ≡ false)
        × (json.elements raw ≡ ok (map digits ns))

marks : List ℕ → List Bool → List Bool
marks [] toggle = toggle
marks (n ∷ ns) toggle = marks ns (if ltb n 29 then set toggle n true else toggle)

set-front :
    (front rest : List Bool) (b v : Bool) (n : ℕ)
    → n ≡ length front
    → set (front ++ b ∷ rest) n v ≡ front ++ v ∷ rest
set-front [] rest b v zero h = refl
set-front [] rest b v (suc n) h = absurd (omega arith)
set-front (x ∷ front) rest b v zero h = absurd (omega arith)
set-front (x ∷ front) rest b v (suc n) h = ap (◌∷◌ x) (set-front front rest b v n (omega arith))

if_small : (n : ℕ) (a b : List Bool) → n < 29 → (if ltb n 29 then a else b) ≡ a
if_small n a b h = ground arith

-- One more element in front.
one_more :
    (front rep bs : List Bool) (b : Bool) (ns : List ℕ)
    → marks ns ((front ++ b ∷ []) ++ rep) ≡ (front ++ b ∷ []) ++ bs
    → marks ns (front ++ b ∷ rep) ≡ front ++ b ∷ bs
one_more front rep bs b ns h =
    ap (marks ns) (sym (append_assoc front (b ∷ []) rep)) ∙ h ∙ append_assoc front (b ∷ []) bs

marks-enabled :
    (json : SettingsJson) (front bs : List Bool) (n : ℕ)
    → n ≡ length front
    → n + length bs ≤ 29
    → marks (enabled json n bs) (front ++ replicate (length bs) false) ≡ front ++ bs
unfolding marks enabled
marks-enabled json front [] n h k = refl
marks-enabled json front (true ∷ bs) n h k =
    let rep = replicate (length bs) false in
    ap (marks (enabled json (suc n) bs))
      (if_small n _ _ (omega arith) ∙ set-front front rep false true n h)
    ∙ one_more front rep bs true (enabled json (suc n) bs) (
        marks-enabled json (front ++ true ∷ []) bs (suc n)
          (omega (arith, length-append front (true ∷ []))) (omega arith))
marks-enabled json front (false ∷ bs) n h k =
    one_more front (replicate (length bs) false) bs false (enabled json (suc n) bs) (
      marks-enabled json (front ++ false ∷ []) bs (suc n)
        (omega (arith, length-append front (false ∷ []))) (omega arith))

read_elements-digits :
    (json : SettingsJson) (laws : SettingsLaws json) (ns : List ℕ) (toggle : List Bool)
    → All (λ n. n < 2 ^ 63) ns
    → read_elements json (map laws.digits ns) toggle ≡ ok (marks ns toggle)
unfolding read_elements number_or_text mark marks
read_elements-digits json laws [] toggle small = refl
read_elements-digits json laws (n ∷ ns) toggle (small, rest) =
    rw (laws.int_of-digits n small)
      (read_elements-digits json laws ns (if ltb n 29 then set toggle n true else toggle) rest)

-- The numbers that are written are those of functions.
enabled-All :
    (json : SettingsJson) (n : ℕ) (bs : List Bool)
    → n + length bs ≤ 29
    → All (λ m. m < 2 ^ 63) (enabled json n bs)
unfolding enabled
enabled-All json n [] h = tt
enabled-All json n (true ∷ bs) h = (omega arith, enabled-All json (suc n) bs (omega arith))
enabled-All json n (false ∷ bs) h = enabled-All json (suc n) bs (omega arith)

take-all : (n : ℕ) (text : Bytes) → length text ≤ n → take n text ≡ text
take-all zero [] h = refl
take-all zero (c ∷ text) h = absurd (omega arith)
take-all (suc n) [] h = refl
take-all (suc n) (c ∷ text) h = ap (◌∷◌ c) (take-all n text (omega arith))

-- Function modes that `Encode` writes, `Decode` reads again, with a JSON library that reads back the
-- numbers that it writes as far as they are of 64 bits, provided that their text is not over the limit of 1 MiB.
pub decode-encode_settings :
    (json : SettingsJson) (laws : SettingsLaws json) (s : Settings) (text : Bytes)
    → length s.toggle ≡ 29
    → encode json s ≡ ok text
    → length text ≤ limit
    → decode json text ≡ (s, none)
unfolding encode decode read_document read_toggle or_default
decode-encode_settings json laws s text size h short =
    let small = enabled-All json 0 s.toggle (omega arith) in
    let (raw, rest, read, done, array, elems) =
      laws.first-write (enabled json 0 s.toggle) text small h in
    let same : marks (enabled json 0 s.toggle) (replicate 29 false) ≡ s.toggle =
      subst (λ n. marks (enabled json 0 s.toggle) (replicate n false) ≡ s.toggle) size
        (marks-enabled json [] s.toggle 0 refl (omega arith)) in
    rw
      (
        take-all limit text short,
        read,
        done,
        array,
        elems,
        read_elements-digits json laws (enabled json 0 s.toggle) (replicate 29 false) small,
        same,
      )
      refl
