-- ===== src/Protocol/Frame/Extract.antt =====
-- Frames are recovered from the stream whatever stands before them.
use go_dcc_ex_driver.Base.{
  ℕ, ◌+◌, ◌≤◌, ◌<◌, ◌≡◌, refl, sym, ap, ◌≢◌, List, [], ◌∷◌, ◌++◌, append_assoc, append-nil, arith,
  length, length-append, All, is_empty, if◌then◌else◌, Bytes, malformed,
}
use go_dcc_ex_driver.Protocol.Frame.{
  max_frame_size, FrameResult, frame, failed, Framer, new_framer, feed_byte, feed,
}
use go_dcc_ex_driver.Protocol.Frame.Stream.{feed-append, IsInner, IsFrame}

abbrev at : Bytes → Framer
at s = record { buf = s }

-- Bytes that are no brackets are appended to a frame that has begun, while there is room.
feed-inner :
    (c : ℕ) (s body : Bytes)
    → All IsInner body
    → length (c ∷ s) + length body ≤ max_frame_size
    → feed (at (c ∷ s)) body ≡ (at (c ∷ (s ++ body)), [])
unfolding feed feed_byte
feed-inner c s [] h l = ap (λ t. (at (c ∷ t), [])) (sym (append-nil s))
feed-inner c s (b ∷ body) h l = ground (
  arith,
  feed-inner c (s ++ b ∷ []) body h.1,
  length-append {0} s (b ∷ []),
  append_assoc s (b ∷ []) body,
)

feed-close :
    (s : Bytes) (l : length (b'<' ∷ s) < max_frame_size)
    → feed (at (b'<' ∷ s)) (b'>' ∷ []) ≡ (at [], frame (b'<' ∷ (s ++ b'>' ∷ [])) ∷ [])
unfolding feed feed_byte
feed-close s l = ground arith

feed-body :
    (body : Bytes)
    → All IsInner body
    → length (b'<' ∷ (body ++ b'>' ∷ [])) ≤ max_frame_size
    → feed (at (b'<' ∷ [])) (body ++ b'>' ∷ []) ≡ (at [], frame (b'<' ∷ (body ++ b'>' ∷ [])) ∷ [])
feed-body body h l =
    let room : length body + 2 ≤ max_frame_size =
      omega (arith, length-append {0} body (b'>' ∷ [])) in
    rw (
      feed-append (at (b'<' ∷ [])) body (b'>' ∷ []),
      feed-inner b'<' [] body h (omega arith),
      feed-close body (omega arith),
    )

feed-open :
    (f : Framer) (bs : Bytes)
    → feed f (b'<' ∷ bs) ≡ (
      (feed (at (b'<' ∷ [])) bs).0,
      (if is_empty f.buf then [] else failed malformed ∷ []) ++ (feed (at (b'<' ∷ [])) bs).1,
    )
unfolding feed feed_byte
feed-open f bs = refl

-- A frame is recovered whole whatever the framer has read before; bytes of an unfinished frame in
-- front of it are reported as one malformed frame, and nothing is kept behind it.
pub feed-frame :
    (f : Framer) (s : Bytes)
    → IsFrame s
    → feed f s
      ≡ (new_framer, (if is_empty f.buf then [] else failed malformed ∷ []) ++ frame s ∷ [])
unfolding new_framer
feed-frame f s w = rw (
  w.bracketed,
  feed-open f (w.body ++ b'>' ∷ []),
  feed-body w.body w.inner (rw w.bracketed at w.bounded),
)

feed-gap : (gap : Bytes) → All (λ b. b ≢ b'<') gap → feed new_framer gap ≡ (new_framer, [])
unfolding feed feed_byte new_framer
feed-gap [] h = refl
feed-gap (b ∷ bs) h = ground (arith, feed-gap bs h.1)

-- Frames with bytes between them that open no frame.
abbrev pub stream : List (Bytes × Bytes) → Bytes
stream [] = []
stream ((gap, s) ∷ parts) = gap ++ (s ++ stream parts)

abbrev pub Separated : List (Bytes × Bytes) → Type 0
Separated [] = Unit
Separated ((gap, s) ∷ parts) = All (λ b. b ≢ b'<') gap × IsFrame s × Separated parts

abbrev pub frames : List (Bytes × Bytes) → List FrameResult
frames [] = []
frames ((gap, s) ∷ parts) = frame s ∷ frames parts

-- Of a stream of frames, with bytes between them that open no frame, a fresh framer yields exactly
-- the frames, in order, with no error, and ends with nothing kept.
pub feed-stream :
    (parts : List (Bytes × Bytes))
    → Separated parts
    → feed new_framer (stream parts) ≡ (new_framer, frames parts)
feed-stream [] h = unfold feed in refl
feed-stream ((gap, s) ∷ parts) (quiet, good, rest) =
    rw
      (
        feed-append new_framer gap (s ++ stream parts),
        feed-gap gap quiet,
        feed-append new_framer s (stream parts),
        feed-frame new_framer s good,
        feed-stream parts rest,
      )
      (unfold new_framer in refl)
