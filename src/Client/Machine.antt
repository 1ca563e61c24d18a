-- ===== src/Client/Machine.antt =====
-- dccex/client/client.go: every interleaving of the reader, the goroutines that write, the callers
-- of `SendContext` and those of `Close`.
use go_dcc_ex_driver.Base.{◌≡◌, true, false, List, [], ◌∷◌, Option, none, Bytes, Error, Result}
use go_dcc_ex_driver.Protocol.Frame.{Framer, new_framer}
use go_dcc_ex_driver.Protocol.Message.{Event}
use go_dcc_ex_driver.Client.{
  Conn, writing, finished, Next, pausing, reading, delivering, reporting, leaving, Client,
  new_client, close_with_cause, begin_send, write_round, take_result, time_out, give_up,
}
use go_dcc_ex_driver.Client.Reading.{read_chunk, emit, leave, after_frames, report, stop_reading}

-- A caller waits for `writeMu`. A sender waits for the first of the goroutine's result, the timer and
-- `done`, and `emit` for the first of a place on the channel and `done`.
pub data Step (conn : Conn) (c : Client) : Client → Type 0 where
  begins : (cmd : Bytes) → c.sending ≡ false → Step conn c (begin_send cmd c).0
  writes : (bs : Bytes) → c.writer ≡ writing bs → Step conn c (write_round conn bs c)
  returns :
      (e : Option Error)
      → c.sending ≡ true
      → c.writer ≡ finished e
      → Step conn c (take_result conn e c).0
  times_out : c.sending ≡ true → Step conn c (time_out conn c).0
  gives_up : c.sending ≡ true → c.done ≡ true → Step conn c (give_up c).0
  closes : Step conn c (close_with_cause conn none c).0
  reads :
      (f : Framer) (chunk : Bytes) (e : Option Error)
      → c.reader ≡ reading f
      → Step conn c (read_chunk f chunk e c)
  emits :
      (f : Framer) (r : Result Event) (rest : List (Result Event)) (next : Next)
      → c.reader ≡ delivering f (r ∷ rest) next
      → Step conn c (emit f r rest next c)
  drops :
      (f : Framer) (r : Result Event) (rest : List (Result Event)) (next : Next)
      → c.reader ≡ delivering f (r ∷ rest) next
      → c.done ≡ true
      → Step conn c (leave c)
  wakes : (f : Framer) → c.reader ≡ delivering f [] pausing → c.done ≡ true → Step conn c (leave c)
  goes_on :
      (f : Framer) (next : Next)
      → c.reader ≡ delivering f [] next
      → Step conn c (after_frames f next c)
  reports : (e : Error) → c.reader ≡ reporting e → Step conn c (report e c)
  mutes : (e : Error) → c.reader ≡ reporting e → c.done ≡ true → Step conn c (leave c)
  stops : c.reader ≡ leaving → Step conn c (stop_reading conn c)

-- The states that follow `c`.
pub data Reach (conn : Conn) (c : Client) : Client → Type 0 where
  here : Reach conn c c
  later : {d e : Client} → Reach conn c d → Step conn d e → Reach conn c e

-- The client that `New` makes.
abbrev pub opened : Client
opened = new_client new_framer
