-- ===== src/Protocol/Decoder/Delivery.antt =====
-- What a decoder delivers from a connection's bytes.
use go_dcc_ex_driver.Base.{
  ◌≡◌, refl, sym, ap, ◌∙◌, List, [], ◌∷◌, ◌++◌, map, arith, All, All-append, Bytes, Result, ok,
  Result-cases, inl, inr,
}
use go_dcc_ex_driver.Base
use go_dcc_ex_driver.Protocol.Frame
use go_dcc_ex_driver.Protocol.Frame.{FrameResult, frame, failed, Framer, new_framer}
use go_dcc_ex_driver.Protocol.Frame.Stream.{IsFrame, IsGood, feed-append, feed_sound}
use go_dcc_ex_driver.Protocol.Message.{Event, raw_frame, parse}
use go_dcc_ex_driver.Protocol.Message.Sound.{IsEvent, parse_sound}
use go_dcc_ex_driver.Protocol.Decoder.{Decoder, new_decoder, decode_frame, feed}

-- The chunks that a connection delivers, read one after the other.
unfoldable pub read_all : Decoder → List Bytes → Decoder × List (Result Event)
read_all d [] = (d, [])
read_all d (chunk ∷ chunks) =
    let r = feed d chunk in let rest = read_all r.0 chunks in (rest.0, r.1 ++ rest.1)

abbrev pub joined : List Bytes → Bytes
joined [] = []
joined (chunk ∷ chunks) = chunk ++ joined chunks

map-append :
    (xs ys : List FrameResult)
    → map decode_frame (xs ++ ys) ≡ map decode_frame xs ++ map decode_frame ys
map-append [] ys = refl
map-append (x ∷ xs) ys = ap (◌∷◌ (decode_frame x)) (map-append xs ys)

pub decode-append :
    (d : Decoder) (xs ys : Bytes)
    → feed d (xs ++ ys) ≡ ((feed (feed d xs).0 ys).0, (feed d xs).1 ++ (feed (feed d xs).0 ys).1)
unfolding feed
decode-append d xs ys =
    rw
      (
        feed-append d.framer xs ys,
        map-append (Frame.feed d.framer xs).1 (Frame.feed (Frame.feed d.framer xs).0 ys).1,
      )
      refl

read_from : (d : Decoder) (chunks : List Bytes) → read_all d chunks ≡ feed d (joined chunks)
unfolding read_all
read_from d [] = unfold feed Frame.feed in refl
read_from d (chunk ∷ chunks) =
    rw (decode-append d chunk (joined chunks), read_from (feed d chunk).0 chunks) refl

-- An event that may be acted on: its values lie in the protocol's ranges, and its text is a frame.
abbrev pub IsTrusted : Result Event → Type 0
IsTrusted (ok e) = IsEvent e × IsFrame (raw_frame e)
IsTrusted (Base.err x) = Unit

decode_frame-IsTrusted : (f : FrameResult) → IsGood f → IsTrusted (decode_frame f)
unfolding decode_frame
decode_frame-IsTrusted (failed x) h = tt
decode_frame-IsTrusted (frame s) h = elim (Result-cases (parse s)) [
  | inl (e, p) ↦ rw p (let (good, same) = parse_sound s p in (good, rw same h))
  | inr (x, p) ↦ rw p tt
]

map-IsTrusted : (fs : List FrameResult) → All IsGood fs → All IsTrusted (map decode_frame fs)
map-IsTrusted [] h = tt
map-IsTrusted (f ∷ fs) h = (decode_frame-IsTrusted f h.0, map-IsTrusted fs h.1)

-- However a connection cuts its bytes into chunks, and whatever they are, a fresh decoder delivers
-- the results of the uncut stream, and each event among them has its values in the protocol's ranges
-- and comes from a complete frame.
pub read_all-IsTrusted :
    (chunks : List Bytes)
    → (read_all new_decoder chunks ≡ feed new_decoder (joined chunks))
      × All IsTrusted (read_all new_decoder chunks).1
unfolding new_decoder
read_all-IsTrusted chunks = (
  read_from new_decoder chunks,
  rw (read_from new_decoder chunks) (unfold feed in map-IsTrusted _ (feed_sound (joined chunks)).0),
)
