-- ===== src/Client/Writes.antt =====
-- dccex/client/client.go: that the goroutine of `SendContext` ends, and what the connection was given.
use go_dcc_ex_driver.Base.{
  ℕ, zero, suc, ◌+◌, ◌≤◌, ◌<◌, ◌≡◌, refl, sym, ap, ◌∙◌, true, false, [], ◌∷◌, ◌++◌, Option, ◌⊎◌,
  inl, inr, none, some, arith, length, take, drop, length-drop, length-append, append-nil,
  append_assoc, ℤ, pos, negsuc, Bytes, Error,
}
use go_dcc_ex_driver.Client.{
  Conn, Writer, resting, writing, finished, Client, is_ascii, begin_send, line_of, taken,
  taken_bytes, written_on, write_round,
}

-- The goroutine's loop, for a number of rounds.
unfoldable pub goroutine : Conn → ℕ → Writer → Client → Client
goroutine conn zero w c = c
goroutine conn (suc n) resting c = c
goroutine conn (suc n) (finished e) c = c
goroutine conn (suc n) (writing bs) c = let d = write_round conn bs c in goroutine conn n d.writer d

abbrev IsTaken : Option ℕ → Bytes → Type 0
IsTaken none bs = Unit
IsTaken (some n) bs = (0 < n) × (n ≤ length bs)

taken-IsTaken : (z : ℤ) (bs : Bytes) → IsTaken (taken z (length bs)) bs
unfolding taken
taken-IsTaken (pos n) bs = ground arith
taken-IsTaken (negsuc n) bs = tt

take-drop : (n : ℕ) (xs : Bytes) → take n xs ++ drop n xs ≡ xs
take-drop zero xs = refl
take-drop (suc n) [] = refl
take-drop (suc n) (x ∷ xs) = ap (◌∷◌ x) (take-drop n xs)

-- What a `Write` leaves of its data.
abbrev pub untaken : Option ℕ → Bytes → Bytes
untaken none bs = bs
untaken (some n) bs = drop n bs

taken-untaken : (count : Option ℕ) (bs : Bytes) → taken_bytes count bs ++ untaken count bs ≡ bs
taken-untaken none bs = refl
taken-untaken (some n) bs = take-drop n bs

pub sent-untaken :
    (count : Option ℕ) (s bs : Bytes) → (s ++ taken_bytes count bs) ++ untaken count bs ≡ s ++ bs
sent-untaken count s bs =
    append_assoc s (taken_bytes count bs) (untaken count bs) ∙ ap (◌++◌ s) (taken-untaken count bs)

-- The goroutine has put a result: nil, and everything is sent, or an error, and a front part is.
abbrev pub Settled : Bytes → Client → Client → Type 0
Settled bs c d =
    ((d.writer ≡ finished none) × (d.sent ≡ c.sent ++ bs))
    ⊎ ((e : Error) × (rest : Bytes) × (d.writer ≡ finished (some e))
        × (d.sent ++ rest ≡ c.sent ++ bs))

goroutine-finished :
    (conn : Conn) (n : ℕ) (e : Option Error) (c : Client) → goroutine conn n (finished e) c ≡ c
unfolding goroutine
goroutine-finished conn zero e c = refl
goroutine-finished conn (suc n) e c = refl

finished-Settled :
    (e : Error) (count : Option ℕ) (bs : Bytes) (c d : Client) (conn : Conn) (n : ℕ)
    → d.writer ≡ finished (some e)
    → d.sent ≡ c.sent ++ taken_bytes count bs
    → Settled bs c (goroutine conn n (finished (some e)) d)
finished-Settled e count bs c d conn n w s =
    rw (goroutine-finished conn n (some e) d, s)
      (inr (e, untaken count bs, w, sent-untaken count c.sent bs))

Settled-front :
    (k : ℕ) (bs : Bytes) (c d out : Client)
    → d.sent ≡ c.sent ++ take k bs
    → Settled (drop k bs) d out
    → Settled bs c out
Settled-front k bs c d out s (inl (w, all)) =
    inl (w, all ∙ ap (λ front. front ++ drop k bs) s ∙ sent-untaken (some k) c.sent bs)
Settled-front k bs c d out s (inr (e, rest, w, part)) =
    inr (e, rest, w, part ∙ ap (λ front. front ++ drop k bs) s ∙ sent-untaken (some k) c.sent bs)

-- The rounds behind one with such an answer.
written_on-Settled :
    (conn : Conn) (n : ℕ) (count : Option ℕ) (e : Option Error) (bs : Bytes) (c d : Client)
    → IsTaken count bs
    → d.writer ≡ written_on count e bs
    → d.sent ≡ c.sent ++ taken_bytes count bs
    → ((rest : Bytes)
        → length rest < length bs
        → Settled rest d (goroutine conn n (writing rest) d))
    → Settled bs c (goroutine conn n (written_on count e bs) d)
unfolding written_on
written_on-Settled conn n count (some x) bs c d h w s ih =
    finished-Settled x count bs c d conn n w s
written_on-Settled conn n none none bs c d h w s ih = finished-Settled _ none bs c d conn n w s
written_on-Settled conn n (some k) none bs c d h w s ih =
    Settled-front k bs c d (goroutine conn n (writing (drop k bs)) d) s
      (ih (drop k bs) (omega (arith, length-drop k bs)))

goroutine_settles :
    (conn : Conn) (n : ℕ) (bs : Bytes) (c : Client)
    → length bs < n
    → Settled bs c (goroutine conn n (writing bs) c)
unfolding goroutine write_round
goroutine_settles conn zero bs c h = absurd (omega arith)
goroutine_settles conn (suc n) [] c h =
    rw (goroutine-finished conn n none (record c { writer = finished none }))
      (inl (refl, sym (append-nil c.sent)))
goroutine_settles conn (suc n) (b ∷ bs) c h =
    let answer = conn.write c.written (b ∷ bs) in
    let count = taken answer.0 (length (b ∷ bs)) in
    written_on-Settled conn n count answer.1 (b ∷ bs) c _ (taken-IsTaken answer.0 (b ∷ bs)) refl
      refl (λ rest less. goroutine_settles conn n rest _ (omega arith))

-- Whatever the connection answers to each `Write`, the goroutine of a command of ASCII bytes, sent on
-- a client that is not closed, puts its result after at most two rounds more than the command has
-- bytes. Behind what was sent before, the connection then has taken a front part of the command and
-- its newline, and all of it if the result is nil.
pub send_settles :
    (conn : Conn) (cmd : Bytes) (c : Client)
    → is_ascii cmd ≡ true
    → c.done ≡ false
    → Settled
        (line_of cmd)
        c
        (goroutine conn (length cmd + 2) (begin_send cmd c).0.writer (begin_send cmd c).0)
unfolding begin_send
send_settles conn cmd c ascii shut =
    rw (ascii, shut)
      (goroutine_settles conn (length cmd + 2) (line_of cmd) _
        (omega (arith, length-append cmd (b'\n' ∷ []))))
