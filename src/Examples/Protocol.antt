-- ===== src/Examples/Protocol.antt =====
-- Tests of the protocol's modules.
use go_dcc_ex_driver.Base.{
  ◌<◌, ◌≡◌, format_ℤ, spaced, has_prefix, valid_utf8, refl, ◌↔◌, false, [], ◌∷◌, ◌++◌, arith, pos,
  negsuc, Bytes, codes, Between, All, if◌then◌else◌, is_empty, fields, eq_bytes, ok, malformed,
}
use go_dcc_ex_driver.Protocol.Number.{in_range, number, Spells, number_iff, number-format_ℤ}
use go_dcc_ex_driver.Protocol.Frame.{frame, failed, Framer, new_framer, feed}
use go_dcc_ex_driver.Protocol.Frame.Stream.{feed_sound, IsFrame, IsGood, IsPartial}
use go_dcc_ex_driver.Protocol.Frame.Extract.{feed-frame, feed-stream}
use go_dcc_ex_driver.Protocol.Command.{bracket, command, check_cab, encode_throttle}
use go_dcc_ex_driver.Protocol.Command.Requests.{
  Request, encode, throttle, words, IsAllowed, encode-ok_iff, encode-IsFrame, encode-fields,
}
use go_dcc_ex_driver.Protocol.Message.{
  loco_state, raw_frame, parse, body_of, is_forbidden, dispatch_fields, dispatch, unknown,
}
use go_dcc_ex_driver.Protocol.Message.Sound.{IsEvent, parse_sound}
use go_dcc_ex_driver.Protocol.Message.Replies.{loco_reply, speed_code, parse_moving}
use go_dcc_ex_driver.Protocol.Decoder
use go_dcc_ex_driver.Protocol.Decoder.{new_decoder}
use go_dcc_ex_driver.Protocol.Decoder.Delivery.{read_all, joined, IsTrusted, read_all-IsTrusted}

abbrev chunk : Bytes
chunk = codes "noise<p1 MAIN><l 3"

feed_sound_example : All IsGood (feed new_framer chunk).1 × IsPartial (feed new_framer chunk).0.buf
feed_sound_example = feed_sound chunk

abbrev power_frame : Bytes
power_frame = codes "<p1>"

power-IsFrame : IsFrame power_frame
unfolding codes
power-IsFrame = record {
  body = codes "p1";
  bracketed = refl;
  inner = omega arith;
  bounded = omega arith;
}

begun_framer : Framer
begun_framer = record { buf = b'<' ∷ [] }

feed-frame_example : feed begun_framer power_frame ≡ (
  new_framer,
  (if is_empty begun_framer.buf then [] else failed malformed ∷ []) ++ frame power_frame ∷ [],
)
feed-frame_example = feed-frame begun_framer power_frame power-IsFrame

feed-stream_example :
    feed new_framer (b'\n' ∷ (power_frame ++ [])) ≡ (new_framer, frame power_frame ∷ [])
feed-stream_example =
    feed-stream ((b'\n' ∷ [], power_frame) ∷ []) ((omega arith, tt), power-IsFrame, tt)

number_iff_example :
    (number (codes "cab") (codes "-07") (negsuc 9) (pos 9) ≡ ok (negsuc 6))
    ↔ (Spells (codes "-07") (negsuc 6) × Between (negsuc 9) (negsuc 6) (pos 9))
number_iff_example =
    number_iff (codes "cab") (codes "-07") (negsuc 9) (pos 9) (negsuc 6) (omega arith) (omega arith)

abbrev slow : Request
slow = throttle (pos 3) (pos 10) (pos 1)

abbrev slow_text : Bytes
slow_text = codes "<t 3 10 1>"

slow_encoded : encode slow ≡ ok slow_text
unfolding encode codes encode_throttle check_cab in_range command bracket format_ℤ spaced
slow_encoded = refl

encode-ok_iff_example :
    (encode slow ≡ ok slow_text)
    ↔ (IsAllowed slow × (slow_text ≡ bracket (words slow).0 (words slow).1))
encode-ok_iff_example = encode-ok_iff slow slow_text

encode-IsFrame_example : IsFrame slow_text × All (λ c. c < 128) slow_text
encode-IsFrame_example = encode-IsFrame slow slow_encoded

encode-fields_example : fields (body_of slow_text) ≡ (words slow).0 ∷ (words slow).1
encode-fields_example = encode-fields slow slow_encoded

abbrev version_frame : Bytes
version_frame = codes "<# 50>"

version_parsed : parse version_frame ≡ ok (unknown version_frame)
unfolding parse body_of is_forbidden fields valid_utf8 dispatch_fields dispatch has_prefix eq_bytes
    codes
version_parsed = refl

parse_sound_example :
    IsEvent (unknown version_frame) × (raw_frame (unknown version_frame) ≡ version_frame)
parse_sound_example = parse_sound version_frame version_parsed

number-format_ℤ_example :
    number (codes "cv") (format_ℤ (pos 1024)) (pos 1) (pos 1024) ≡ ok (pos 1024)
number-format_ℤ_example =
    number-format_ℤ (codes "cv") (pos 1024) (pos 1) (pos 1024) (omega arith) (omega arith)
      (omega arith) (omega arith)

abbrev forward : Bytes
forward = loco_reply (pos 3) (negsuc 0) (speed_code 126 1) 5

parse_moving_example :
    parse forward
    ≡ ok (
        loco_state (record {
          raw = forward;
          cab = pos 3;
          reg = negsuc 0;
          speed_byte = speed_code 126 1;
          speed = pos 126;
          direction = pos 1;
          emergency = false;
          function_mask = 5;
        }))
parse_moving_example =
    parse_moving (pos 3) (negsuc 0) 126 1 5 (omega arith) (omega arith) (omega arith) (omega arith)
      (omega arith)

-- The reply's text, and the same state read from it.
forward_text : forward ≡ codes "<l 3 -1 255 5>"
unfolding codes bracket format_ℤ spaced
forward_text = refl

read_all-IsTrusted_example :
    (read_all new_decoder (chunk ∷ codes " 0>" ∷ [])
      ≡ Decoder.feed new_decoder (joined (chunk ∷ codes " 0>" ∷ [])))
    × All IsTrusted (read_all new_decoder (chunk ∷ codes " 0>" ∷ [])).1
read_all-IsTrusted_example = read_all-IsTrusted (chunk ∷ codes " 0>" ∷ [])
