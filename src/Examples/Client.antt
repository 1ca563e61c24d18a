-- ===== src/Examples/Client.antt =====
-- Runs of a client: a command that is written in two parts, frames that arrive in two chunks, and a
-- shutdown.
use go_dcc_ex_driver.Base.{
  truncated, ◌≡◌, refl, ℕ, ◌+◌, Bool, true, false, List, [], ◌∷◌, ◌++◌, Option, none, some, length,
  leb, if◌then◌else◌, pos, Bytes, codes, message, Error, ◌⊎◌, inl, inr,
}
use go_dcc_ex_driver.Protocol.Frame
use go_dcc_ex_driver.Protocol.Frame.{Framer, new_framer}
use go_dcc_ex_driver.Base
use go_dcc_ex_driver.Protocol.Message.{parse}
use go_dcc_ex_driver.Protocol.Decoder.{decode_frame}
use go_dcc_ex_driver.Client.{
  Conn, decoded, lost, Received, broken, failing, Client, new_client, line_of, begin_send,
  write_round, take_result, close_with_cause,
}
use go_dcc_ex_driver.Client.Reading.{read_chunk, after_frames, emit, report}
use go_dcc_ex_driver.Client.Machine.{
  begins, writes, reads, emits, goes_on, reports, Reach, here, later, opened,
}
use go_dcc_ex_driver.Client.Writes.{Settled, goroutine, send_settles}
use go_dcc_ex_driver.Client.Order.{lines, sent_in_order}
use go_dcc_ex_driver.Client.Delivery.{owed}
use go_dcc_ex_driver.Client.Delivery.Refines.{is_busy, events_refine_decoder}

-- A connection that takes at most three bytes at once.
abbrev slow : Conn
slow = record {
  write = λ history bs. (if leb (length bs) 3 then pos (length bs) else pos 3, none);
  on_close = none;
}

send_settles_example : Settled (line_of (codes "<s>")) opened (
    goroutine slow
      (length (codes "<s>") + 2)
      (begin_send (codes "<s>") opened).0.writer
      (begin_send (codes "<s>") opened).0)
unfolding codes new_client
send_settles_example = send_settles slow (codes "<s>") opened refl refl

abbrev begun_one : Client
begun_one = (begin_send (codes "<s>") opened).0

abbrev half_sent : Client
half_sent = write_round slow (line_of (codes "<s>")) begun_one

abbrev all_sent : Client
all_sent = write_round slow (b'\n' ∷ []) half_sent

abbrev one_sent : Client
one_sent = (take_result slow none (write_round slow [] all_sent)).0

half_sent-Reach : Reach slow opened half_sent
unfolding new_client begin_send codes write_round
half_sent-Reach =
    later (later here (begins (codes "<s>") refl)) (writes (line_of (codes "<s>")) refl)

sent_in_order_example :
    (rest : Bytes) × (half_sent.sent ++ rest ≡ lines half_sent.begun)
    × ((half_sent.done ≡ true) ⊎ (half_sent.sending ≡ true) ⊎ (rest ≡ []))
sent_in_order_example = sent_in_order slow half_sent half_sent-Reach

one_sent-result : (one_sent.sent ≡ codes "<s>\n") × (one_sent.sending ≡ false)
unfolding new_client begin_send codes write_round take_result
one_sent-result = (refl, refl)

abbrev shut : Client
shut = (close_with_cause slow none one_sent).0

abbrev shut_again : Client
shut_again = (close_with_cause slow none shut).0

-- A frame and the beginning of another one, and the end of the stream.
abbrev end_of_file : Error
end_of_file = message (codes "EOF")

abbrev chunk : Bytes
chunk = codes "<X><p"

abbrev cut : Framer
cut = record { buf = codes "<p" }

abbrev chunk_read : Client
chunk_read = read_chunk new_framer chunk (some end_of_file) opened

abbrev event_out : Client
event_out = emit cut (parse (codes "<X>")) [] (broken end_of_file) chunk_read

abbrev failure_seen : Client
failure_seen = after_frames cut (broken end_of_file) event_out

abbrev cut_out : Client
cut_out = emit new_framer (Base.err truncated) [] (failing end_of_file) failure_seen

abbrev all_out : Client
all_out = report end_of_file (after_frames new_framer (failing end_of_file) cut_out)

cut_out-Reach : Reach slow opened cut_out
unfolding new_client codes read_chunk new_framer Frame.feed Frame.end_stream after_frames emit
    decode_frame Frame.feed_byte Frame.reset
cut_out-Reach =
    later
      (later
        (later (later here (reads new_framer chunk (some end_of_file) refl))
          (emits cut (parse (codes "<X>")) [] (broken end_of_file) refl))
        (goes_on cut (broken end_of_file) refl))
      (emits new_framer (Base.err truncated) [] (failing end_of_file) refl)

all_out-Reach : Reach slow opened all_out
unfolding new_client codes read_chunk new_framer Frame.feed Frame.end_stream after_frames emit
    decode_frame Frame.feed_byte Frame.reset
all_out-Reach =
    later (later cut_out-Reach (goes_on new_framer (failing end_of_file) refl))
      (reports end_of_file refl)

events_refine_decoder_example :
    (rest : List Received) × (all_out.events ++ rest ≡ owed all_out.incoming all_out.failure)
    × ((rest ≡ []) ⊎ (all_out.done ≡ true) ⊎ (is_busy all_out.reader ≡ true))
events_refine_decoder_example = events_refine_decoder slow all_out all_out-Reach

-- The event, the frame that is cut, and the error.
all_out-events :
    all_out.events
    ≡ decoded (parse (codes "<X>")) ∷ decoded (Base.err truncated) ∷ lost end_of_file ∷ []
unfolding new_client codes read_chunk after_frames emit report
all_out-events = refl
