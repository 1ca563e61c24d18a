-- ===== src/Client/Reading.antt =====
-- dccex/client/client.go: the loop of `read`, cut where it waits for another goroutine. `Close` may
-- come between any two of these steps, and so may every step of a command.
use go_dcc_ex_driver.Base.{
  Bool, true, false, List, [], ◌∷◌, ◌++◌, Option, none, some, map, if◌then◌else◌, Bytes, Error,
  Result,
}
use go_dcc_ex_driver.Base
use go_dcc_ex_driver.Protocol.Frame
use go_dcc_ex_driver.Protocol.Frame.{Framer}
use go_dcc_ex_driver.Protocol.Message.{Event}
use go_dcc_ex_driver.Protocol.Decoder.{decode_frame}
use go_dcc_ex_driver.Client.{
  Conn, decoded, lost, Next, more, pausing, broken, failing, reading, delivering, reporting,
  leaving, stopped, Client, close_with_cause,
}

-- `err != nil`, and else `n == 0`.
unfoldable pub next_of : Bytes → Option Error → Next
next_of chunk (some e) = broken e
next_of [] none = pausing
next_of (b ∷ bs) none = more

-- `Read` returns, and its bytes are framed and decoded.
unfoldable pub read_chunk : Framer → Bytes → Option Error → Client → Client
unfolding next_of
read_chunk f chunk e c =
    let r = Frame.feed f chunk in
    record c {
      reader = delivering r.0 (map decode_frame r.1) (next_of chunk e);
      incoming = c.incoming ++ chunk;
      failure = e;
    }

-- `emit` puts the event on the channel.
unfoldable pub emit : Framer → Result Event → List (Result Event) → Next → Client → Client
emit f r rest next c = record c {
  events = c.events ++ decoded r ∷ [];
  reader = delivering f rest next;
}

-- A return, where `emit` or a pause sees that `done` is closed.
unfoldable pub leave : Client → Client
leave c = record c { reader = leaving }

-- A frame that the end of the stream cuts is a result with an error.
unfoldable pub cut_short : Option Error → List (Result Event)
cut_short none = []
cut_short (some e) = Base.err e ∷ []

-- An error of `Read` ends the reading, and is not reported behind a `Close`.
unfoldable pub after_error : Bool → Framer → Error → Client → Client
unfolding leave cut_short
after_error true f e c = leave c
after_error false f e c =
    let r = Frame.end_stream f in record c { reader = delivering r.0 (cut_short r.1) (failing e) }

-- Behind the last frame of a `Read`. `readCause` is set before the error is published.
unfoldable pub after_frames : Framer → Next → Client → Client
unfolding after_error
after_frames f more c = record c { reader = reading f }
after_frames f pausing c = record c { reader = reading f }
after_frames f (broken e) c = after_error c.done f e c
after_frames f (failing e) c = record c { read_cause = some e; reader = reporting e }

-- The terminal event.
unfoldable pub report : Error → Client → Client
report e c = record c { events = c.events ++ lost e ∷ []; reader = leaving }

-- The deferred `Close`, behind which the channel `events` is closed.
unfoldable pub stop_reading : Conn → Client → Client
unfolding close_with_cause
stop_reading conn c = (close_with_cause conn none (record c { reader = stopped })).0
