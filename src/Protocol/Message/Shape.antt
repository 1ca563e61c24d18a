-- ===== src/Protocol/Message/Shape.antt =====
-- The bracket tests of `Parse` on a text that is written as brackets round a body.
use go_dcc_ex_driver.Base.{
  ℕ, zero, suc, ◌+◌, ◌-◌, ◌≤◌, ◌<◌, ◌≡◌, refl, ap, true, not, [], ◌∷◌, ◌++◌, arith, length,
  length-append, take, get_or, all, Bytes, valid_utf8, fields,
}
use go_dcc_ex_driver.Protocol.Frame.{max_frame_size}
use go_dcc_ex_driver.Protocol.Message.{body_of, parse, is_forbidden, dispatch_fields}

take-length-append : (n : ℕ) (s t : Bytes) → n ≡ length s → take n (s ++ t) ≡ s
take-length-append zero [] t e = refl
take-length-append zero (c ∷ s) t e = absurd (omega arith)
take-length-append (suc n) [] t e = absurd (omega arith)
take-length-append (suc n) (c ∷ s) t e = ap (◌∷◌ c) (take-length-append n s t (omega arith))

get_or-length : (n : ℕ) (s t : Bytes) (c d : ℕ) → n ≡ length s → get_or (s ++ c ∷ t) n d ≡ c
get_or-length zero [] t c d e = refl
get_or-length zero (x ∷ s) t c d e = absurd (omega arith)
get_or-length (suc n) [] t c d e = absurd (omega arith)
get_or-length (suc n) (x ∷ s) t c d e = get_or-length n s t c d (omega arith)

pub body_of_lem : (body : Bytes) → body_of (b'<' ∷ (body ++ b'>' ∷ [])) ≡ body
unfolding body_of
body_of_lem body =
    take-length-append _ body (b'>' ∷ []) (omega (arith, length-append {0} body (b'>' ∷ [])))

last_of_frame :
    (body : Bytes)
    → get_or (b'<' ∷ (body ++ b'>' ∷ [])) (length (b'<' ∷ (body ++ b'>' ∷ [])) - 1) 0 ≡ b'>'
last_of_frame body =
    get_or-length (length (b'<' ∷ (body ++ b'>' ∷ [])) - 1) (b'<' ∷ body) [] b'>' 0
      (omega (arith, length-append {0} body (b'>' ∷ [])))

-- A bracketed text with a body of allowed bytes is read by its fields.
pub parse-bracket :
    (body : Bytes)
    → 0 < length body
    → length body + 2 ≤ max_frame_size
    → valid_utf8 (b'<' ∷ (body ++ b'>' ∷ [])) ≡ true
    → all (λ c. not (is_forbidden c)) body ≡ true
    → parse (b'<' ∷ (body ++ b'>' ∷ []))
      ≡ dispatch_fields (b'<' ∷ (body ++ b'>' ∷ [])) body (fields body)
unfolding parse
parse-bracket body h l u a =
    ground (arith, u, a, body_of_lem body, last_of_frame body, length-append {0} body (b'>' ∷ []))
