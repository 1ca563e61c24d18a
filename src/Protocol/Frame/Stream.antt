-- ===== src/Protocol/Frame/Stream.antt =====
-- What the framer keeps between bytes, and what its results are worth.
use go_dcc_ex_driver.Base.{
  ℕ, suc, ◌≤◌, ◌≡◌, refl, ◌≢◌, [], ◌∷◌, ◌++◌, append_assoc, arith, length, length-append, All,
  All-append, Bytes,
}
use go_dcc_ex_driver.Protocol.Frame.{
  max_frame_size, FrameResult, frame, failed, Framer, new_framer, feed_byte, feed,
}

-- Feeding two chunks is feeding their concatenation: results do not depend on how the transport
-- cuts the stream.
pub feed-append :
    (f : Framer) (xs ys : Bytes)
    → feed f (xs ++ ys) ≡ ((feed (feed f xs).0 ys).0, (feed f xs).1 ++ (feed (feed f xs).0 ys).1)
unfolding feed
feed-append f [] ys = refl
feed-append f (x ∷ xs) ys = simp (feed-append (feed_byte f x).0 xs ys, append_assoc)

-- A byte that may stand inside a frame.
abbrev pub IsInner : ℕ → Type 0
IsInner b = (b ≢ b'<') × (b ≢ b'>')

-- A frame: brackets round a body without brackets, 4096 bytes at most.
pub record IsFrame (s : Bytes) : Type 0 where
  pub body : Bytes
  pub bracketed : s ≡ b'<' ∷ (body ++ b'>' ∷ [])
  pub inner : All IsInner body
  pub bounded : length s ≤ max_frame_size

-- The buffer is empty, or an opening bracket and a body without brackets, 4096 bytes at most.
abbrev pub IsPartial : Bytes → Type 0
IsPartial [] = Unit
IsPartial (c ∷ body) = (c ≡ b'<') × All IsInner body × (suc (length body) ≤ max_frame_size)

abbrev pub IsGood : FrameResult → Type 0
IsGood (frame s) = IsFrame s
IsGood (failed e) = Unit

abbrev at : Bytes → Framer
at s = record { buf = s }

feed_byte-IsPartial : (s : Bytes) (b : ℕ) → IsPartial s → IsPartial (feed_byte (at s) b).0.buf
unfolding feed_byte
feed_byte-IsPartial [] b h = ground arith
feed_byte-IsPartial (c ∷ body) b h =
    ground (arith, All-append IsInner body (b ∷ []), length-append {0} body (b ∷ []))

close-IsFrame :
    (c b : ℕ) (body : Bytes)
    → IsPartial (c ∷ body)
    → b ≡ b'>'
    → length (c ∷ body) ≢ max_frame_size
    → IsFrame (c ∷ (body ++ b ∷ []))
close-IsFrame c b body h e n = record {
  body = body;
  bracketed = ground arith;
  inner = h.1;
  bounded = omega (arith, length-append {0} body (b ∷ []));
}

feed_byte-IsGood : (s : Bytes) (b : ℕ) → IsPartial s → All IsGood (feed_byte (at s) b).1
unfolding feed_byte
feed_byte-IsGood [] b h = ground arith
feed_byte-IsGood (c ∷ body) b h = ground (arith, close-IsFrame c b body h)

-- From a partial frame, any bytes leave a partial frame.
pub feed-IsPartial : (f : Framer) (bs : Bytes) → IsPartial f.buf → IsPartial (feed f bs).0.buf
unfolding feed
feed-IsPartial f [] h = h
feed-IsPartial f (b ∷ bs) h = feed-IsPartial (feed_byte f b).0 bs (feed_byte-IsPartial f.buf b h)

feed-IsGood : (f : Framer) (bs : Bytes) → IsPartial f.buf → All IsGood (feed f bs).1
unfolding feed
feed-IsGood f [] h = tt
feed-IsGood f (b ∷ bs) h =
    All-append IsGood (feed_byte f b).1 (feed (feed_byte f b).0 bs).1 (feed_byte-IsGood f.buf b h)
      (feed-IsGood (feed_byte f b).0 bs (feed_byte-IsPartial f.buf b h))

-- Whatever bytes a fresh framer reads, each frame that it yields is bracketed, has no bracket
-- inside and at most 4096 bytes, and what it keeps is the beginning of such a frame.
pub feed_sound :
    (bs : Bytes) → All IsGood (feed new_framer bs).1 × IsPartial (feed new_framer bs).0.buf
unfolding new_framer
feed_sound bs = (feed-IsGood new_framer bs tt, feed-IsPartial new_framer bs tt)
