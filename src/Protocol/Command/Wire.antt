-- ===== src/Protocol/Command/Wire.antt =====
-- What the encoders put on the wire.
use go_dcc_ex_driver.Base.{
  ℕ, zero, suc, ◌*◌, ◌≤◌, ◌<◌, ◌≡◌, refl, List, [], ◌∷◌, ◌++◌, arith, ℤ, pos, negsuc, ◌≤ℤ◌, Bytes,
  format_ℕ, format_ℤ, spaced, IsPlain, IsWord, IsDigit, length, length-append, All, All-append,
  format_ℕ-IsDigit, length-format_ℕ, length-format_ℕ_pos,
}
use go_dcc_ex_driver.Protocol.Number.{ne-nil_of_pos}
use go_dcc_ex_driver.Protocol.Frame.Stream.{IsFrame, IsInner}
use go_dcc_ex_driver.Protocol.Message.Shape.{body_of_lem}
use go_dcc_ex_driver.Protocol.Message.{body_of}
use go_dcc_ex_driver.Protocol.Command.{bracket}

-- Visible ASCII without brackets, one byte at least and twelve at most.
pub record IsToken (w : Bytes) : Type 0 where
  pub word : IsWord w
  pub inner : All IsInner w
  pub short : length w ≤ 12

digits-IsPlain : (s : Bytes) → All IsDigit s → All IsPlain s × All IsInner s
digits-IsPlain [] h = (tt, tt)
digits-IsPlain (c ∷ s) h =
    let (plain, inner) = digits-IsPlain s h.1 in ((omega arith, plain), ((omega arith, inner)))

-- The numbers that commands carry print as tokens.
pub format_ℤ-IsToken : (n : ℤ) → negsuc 0 ≤ℤ n → n ≤ℤ pos 4294967295 → IsToken (format_ℤ n)
unfolding format_ℤ
format_ℤ-IsToken (pos n) h k =
    let (plain, inner) = digits-IsPlain (format_ℕ n) (format_ℕ-IsDigit n) in
    record {
      word = record { nonempty = ne-nil_of_pos _ (length-format_ℕ_pos n); plain = plain };
      inner = inner;
      short = omega (arith, length-format_ℕ 9 n (omega arith));
    }
format_ℤ-IsToken (negsuc zero) h k =
    unfold format_ℕ in
    record {
      word = record { nonempty = λ e. cc; plain = omega arith };
      inner = omega arith;
      short = omega arith;
    }
format_ℤ-IsToken (negsuc (suc n)) h k = absurd (omega arith)

pub All-spaced : (P : ℕ → Type 0) (ws : List Bytes) → P b' ' → All (All P) ws → All P (spaced ws)
unfolding spaced
All-spaced P [] h k = tt
All-spaced P (w ∷ ws) h k = (h, All-append P w (spaced ws) k.0 (All-spaced P ws h k.1))

pub length-spaced : (ws : List Bytes) → All IsToken ws → length (spaced ws) ≤ 13 * length ws
unfolding spaced
length-spaced [] h = omega arith
length-spaced (w ∷ ws) h =
    omega (arith, length-spaced ws h.1, length-append {0} w (spaced ws), h.0.short)

pub tokens-IsInner : (ws : List Bytes) → All IsToken ws → All (All IsInner) ws
tokens-IsInner [] h = tt
tokens-IsInner (w ∷ ws) h = (h.0.inner, tokens-IsInner ws h.1)

pub tokens-IsWord : (ws : List Bytes) → All IsToken ws → All IsWord ws
tokens-IsWord [] h = tt
tokens-IsWord (w ∷ ws) h = (h.0.word, tokens-IsWord ws h.1)

-- A few tokens in brackets are a frame.
pub bracket-IsFrame :
    (w : Bytes) (ws : List Bytes)
    → IsToken w
    → All IsToken ws
    → length ws ≤ 4
    → IsFrame (bracket w ws)
unfolding bracket
bracket-IsFrame w ws h k l = record {
  body = w ++ spaced ws;
  bracketed = refl;
  inner =
      All-append IsInner w (spaced ws) h.inner
        (All-spaced IsInner ws (ground arith) (tokens-IsInner ws k));
  bounded = omega (
    arith,
    h.short,
    length-spaced ws k,
    length-append {0} w (spaced ws),
    length-append {0} (w ++ spaced ws) (b'>' ∷ []),
  );
}

plain-ascii : (w : Bytes) → All IsPlain w → All (λ c. c < 128) w
plain-ascii [] h = tt
plain-ascii (c ∷ w) h = (omega arith, plain-ascii w h.1)

tokens-ascii : (ws : List Bytes) → All IsToken ws → All (All (λ c. c < 128)) ws
tokens-ascii [] h = tt
tokens-ascii (w ∷ ws) h = (plain-ascii w h.0.word.plain, tokens-ascii ws h.1)

pub bracket-ascii :
    (w : Bytes) (ws : List Bytes) → IsToken w → All IsToken ws → All (λ c. c < 128) (bracket w ws)
unfolding bracket
bracket-ascii w ws h k =
    let ascii = λ (c : ℕ). c < 128 in
    (
      omega arith,
      All-append ascii (w ++ spaced ws) (b'>' ∷ [])
          (All-append ascii w (spaced ws) (plain-ascii w h.word.plain)
            (All-spaced ascii ws (omega arith) (tokens-ascii ws k)))
          (omega arith, tt),
    )

pub body_of-bracket : (w : Bytes) (ws : List Bytes) → body_of (bracket w ws) ≡ w ++ spaced ws
unfolding bracket
body_of-bracket w ws = body_of_lem (w ++ spaced ws)
