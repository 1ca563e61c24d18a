-- ===== src/Client.antt =====
-- dccex/client/client.go: the state of one connection's client, its shutdown and the sending of
-- commands. Children hold the reading and the theorems.
pub mod Reading
pub mod Machine
pub mod Closing
pub mod Writes
pub mod Order
pub mod Shutdown
pub mod Delivery
use go_dcc_ex_driver.Base.{
  ℕ, suc, Bool, true, false, List, [], ◌∷◌, ◌++◌, Option, none, some, ltb, leb, ◌&&◌, length, take,
  drop, all, if◌then◌else◌, ℤ, pos, negsuc, Bytes, codes, Error, message, Result,
}
use go_dcc_ex_driver.Protocol.Frame.{FrameResult, Framer}
use go_dcc_ex_driver.Protocol.Message.{Event}

-- The underlying connection. It answers a `Write`, given the data of the earlier ones, the latest
-- first, and the first `Close`. What `Read` returns is chosen by the steps.
pub record Conn : Type 0 where
  pub write : List Bytes → Bytes → ℤ × Option Error
  pub on_close : Option Error

-- The goroutine of `SendContext`, and the value it leaves in `result`.
pub data Writer : Type 0 where
  resting : Writer
  writing : Bytes → Writer
  finished : Option Error → Writer

-- `Received`: a result of the decoder, or the error that ended the connection.
pub data Received : Type 0 where
  decoded : Result Event → Received
  lost : Error → Received

-- What `read` does behind the frames of a `Read`: it reads on, pauses as no byte came, looks at the
-- error of the `Read`, or reports that error.
pub data Next : Type 0 where
  more pausing : Next
  broken failing : Error → Next

-- Where `read` stands; `leaving` is the deferred `Close`.
pub data Reader : Type 0 where
  reading : Framer → Reader
  delivering : Framer → List (Result Event) → Next → Reader
  reporting : Error → Reader
  leaving stopped : Reader

-- `done` says that the channel is closed, and so that `once` has run. `sending` is `writeMu`. The rest
-- is what an observer sees: the calls of `conn.Close` and of `finishConnection` with the errors that
-- are joined, the commands that were let through, the data given to `conn.Write`, the latest first,
-- the bytes that it took, the bytes that were read, the error of a `Read`, and the channel `events`.
pub record Client : Type 0 where
  pub done : Bool
  pub sending : Bool
  pub writer : Writer
  pub reader : Reader
  pub read_cause : Option Error
  pub closes : ℕ
  pub lifetimes : List (List Error)
  pub begun : List Bytes
  pub written : List Bytes
  pub sent : Bytes
  pub incoming : Bytes
  pub failure : Option Error
  pub events : List Received

unfoldable pub new_client : Framer → Client
new_client f = record {
  done = false;
  sending = false;
  writer = resting;
  reader = reading f;
  read_cause = none;
  closes = 0;
  lifetimes = [];
  begun = [];
  written = [];
  sent = [];
  incoming = [];
  failure = none;
  events = [];
}

-- The errors that `errors.Join` keeps.
abbrev pub present : Option Error → List Error
present none = []
present (some e) = e ∷ []

-- The body of `closeWithCause`, which `once` leaves out if it has run. It is one step of the model: that
-- the reader may still set `readCause` between the two halves only adds to the joined errors.
unfoldable pub close_unless : Bool → Conn → Option Error → Client → Client × Option Error
close_unless true conn cause c = (c, none)
close_unless false conn cause c = (
  record c {
    done = true;
    closes = suc c.closes;
    lifetimes = (present cause ++ present c.read_cause ++ present conn.on_close) ∷ c.lifetimes;
  },
  conn.on_close,
)

-- `closeWithCause`: the first call closes the connection and settles the cause.
unfoldable pub close_with_cause : Conn → Option Error → Client → Client × Option Error
unfolding close_unless
close_with_cause conn cause c = close_unless c.done conn cause c

abbrev pub closed_pipe : Error
closed_pipe = message (codes "io: read/write on closed pipe")

abbrev pub short_write : Error
short_write = message (codes "short write")

-- `[]byte(command + "\n")`
abbrev pub line_of : Bytes → Bytes
line_of cmd = cmd ++ b'\n' ∷ []

abbrev pub is_ascii : Bytes → Bool
is_ascii cmd = all (λ b. leb b 127) cmd

-- Behind the lock, given whether `done` is closed.
unfoldable pub admit : Bool → Bytes → Client → Client × Option Error
admit true cmd c = (c, some closed_pipe)
admit false cmd c =
    (record c { sending = true; writer = writing (line_of cmd); begun = c.begun ++ cmd ∷ [] }, none)

-- `SendContext` up to the start of its goroutine, which it leaves out when it returns an error.
unfoldable pub begin_send : Bytes → Client → Client × Option Error
unfolding admit
begin_send cmd c =
    if is_ascii cmd
    then admit c.done cmd c
    else (c, some (message (codes "DCC-EX commands must be ASCII")))

-- The bytes that `Write` took, if it returned a count between 1 and the length of the data.
unfoldable pub taken : ℤ → ℕ → Option ℕ
taken (pos n) len = if ltb 0 n && leb n len then some n else none
taken (negsuc n) len = none

abbrev pub taken_bytes : Option ℕ → Bytes → Bytes
taken_bytes none data_left = []
taken_bytes (some n) data_left = take n data_left

unfoldable pub written_on : Option ℕ → Option Error → Bytes → Writer
written_on count (some e) data_left = finished (some e)
written_on none none data_left = finished (some short_write)
written_on (some n) none data_left = writing (drop n data_left)

-- A round of the goroutine's loop, and its end.
unfoldable pub write_round : Conn → Bytes → Client → Client
unfolding taken written_on
write_round conn [] c = record c { writer = finished none }
write_round conn (b ∷ bs) c =
    let answer = conn.write c.written (b ∷ bs) in
    let count = taken answer.0 (length (b ∷ bs)) in
    record c {
      writer = written_on count answer.1 (b ∷ bs);
      written = (b ∷ bs) ∷ c.written;
      sent = c.sent ++ taken_bytes count (b ∷ bs);
    }

-- The three cases of the last `select`: the goroutine's result, the timer and `done`. Each unlocks
-- `writeMu`; a goroutine that has not finished goes on.
unfoldable pub take_result : Conn → Option Error → Client → Client × Option Error
unfolding close_with_cause
take_result conn none c = (record c { sending = false; writer = resting }, none)
take_result conn (some e) c =
    ((close_with_cause conn (some e) (record c { sending = false; writer = resting })).0, some e)

unfoldable pub time_out : Conn → Client → Client × Option Error
unfolding close_with_cause
time_out conn c =
    let e = message (codes "command write timed out") in
    ((close_with_cause conn (some e) (record c { sending = false })).0, some e)

unfoldable pub give_up : Client → Client × Option Error
give_up c = (record c { sending = false }, some closed_pipe)
