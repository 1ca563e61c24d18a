-- ===== src/Protocol/Frame.antt =====
-- dccex/protocol/frame.go: the framer, which cuts a byte stream into bracketed frames.
pub mod Stream
pub mod Extract
use go_dcc_ex_driver.Base.{
  ℕ, ◌≡◌, List, [], ◌∷◌, ◌++◌, Bool, Option, none, some, length, ◌==◌, if◌then◌else◌, is_empty,
  Bytes, Error, malformed, frame_too_large, truncated,
}

abbrev pub max_frame_size : ℕ
max_frame_size = 4096

pub data FrameResult : Type 0 where
  frame : Bytes → FrameResult
  failed : Error → FrameResult

-- The `buf` of a `Framer`. An empty and a nil slice are used alike.
pub record Framer : Type 0 where
  pub buf : Bytes

unfoldable pub new_framer : Framer
new_framer = record { buf = [] }

-- `b == '<'`: a frame that was begun is malformed, and a new one begins.
restart : Framer → ℕ → Framer × List FrameResult
restart f b = (record { buf = b ∷ [] }, if is_empty f.buf then [] else failed malformed ∷ [])

-- The end of the loop's body: the byte is kept, and `>` completes the frame.
keep : Framer → ℕ → Framer × List FrameResult
keep f b =
    let grown = f.buf ++ b ∷ [] in
    if b == b'>' then (record { buf = [] }, frame grown ∷ []) else (record { buf = grown }, [])

-- The loop's body: the framer behind one byte, and what it appends to `out`.
unfoldable pub feed_byte : Framer → ℕ → Framer × List FrameResult
unfolding restart keep
feed_byte f b =
    if b == b'<'
    then restart f b
    else if is_empty f.buf
    then (f, [])
    else if length f.buf == max_frame_size
    then (record { buf = [] }, failed frame_too_large ∷ [])
    else keep f b

unfoldable pub feed : Framer → Bytes → Framer × List FrameResult
feed f [] = (f, [])
feed f (b ∷ bs) =
    let (f', out) = feed_byte f b in let (f'', rest) = feed f' bs in (f'', out ++ rest)

unfoldable pub pending : Framer → Bytes
pending f = f.buf

unfoldable pub reset : Framer → Framer
reset f = record { buf = [] }

unfoldable pub end_stream : Framer → Framer × Option Error
end_stream f = (reset f, if is_empty f.buf then none else some truncated)
