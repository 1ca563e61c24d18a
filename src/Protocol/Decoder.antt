-- ===== src/Protocol/Decoder.antt =====
-- dccex/protocol/api.go: framing composed with parsing.
pub mod Delivery
use go_dcc_ex_driver.Base.{List, map, Option, Bytes, Error, Result, ok}
use go_dcc_ex_driver.Base
use go_dcc_ex_driver.Protocol.Frame
use go_dcc_ex_driver.Protocol.Frame.{FrameResult, frame, failed, Framer, new_framer}
use go_dcc_ex_driver.Protocol.Message.{Event, parse}

-- `Result` of the source holds an event or an error, as the result type of this model does.
pub record Decoder : Type 0 where
  pub framer : Framer

unfoldable pub new_decoder : Decoder
new_decoder = record { framer = new_framer }

-- The loop's body.
unfoldable pub decode_frame : FrameResult → Result Event
decode_frame (failed e) = Base.err e
decode_frame (frame s) = parse s

unfoldable pub feed : Decoder → Bytes → Decoder × List (Result Event)
feed d bs = let r = Frame.feed d.framer bs in (record { framer = r.0 }, map decode_frame r.1)

unfoldable pub pending : Decoder → Bytes
pending d = Frame.pending d.framer

unfoldable pub reset : Decoder → Decoder
reset d = record { framer = Frame.reset d.framer }

unfoldable pub end_stream : Decoder → Decoder × Option Error
end_stream d = let r = Frame.end_stream d.framer in (record { framer = r.0 }, r.1)
