-- ===== src/Client/Delivery/Refines.antt =====
-- dccex/client/client.go: that every step of a connection keeps to the decoder.
use go_dcc_ex_driver.Base.{
  ◌≡◌, refl, ◌∙◌, subst, Bool, true, false, List, [], ◌∷◌, ◌++◌, map, Option, none, some,
  append-nil, Bytes, Error, Bool-cases, ◌⊎◌, inl, inr,
}
use go_dcc_ex_driver.Protocol.Frame
use go_dcc_ex_driver.Protocol.Frame.{Framer}
use go_dcc_ex_driver.Protocol.Decoder
use go_dcc_ex_driver.Protocol.Decoder.{Decoder, new_decoder, decode_frame}
use go_dcc_ex_driver.Client.{
  Conn, Received, lost, pausing, Reader, reading, delivering, reporting, leaving, stopped, resting,
  Client, new_client, is_ascii, admit, begin_send, write_round, take_result, time_out, give_up,
  close_with_cause,
}
use go_dcc_ex_driver.Client.Reading.{read_chunk, emit, report, stop_reading}
use go_dcc_ex_driver.Client.Closing.{close_with_cause-Kept}
use go_dcc_ex_driver.Client.Machine.{
  Step, begins, writes, returns, times_out, gives_up, closes, reads, emits, drops, wakes, goes_on,
  reports, mutes, stops, Reach, here, later, opened,
}
use go_dcc_ex_driver.Client.Delivery.{
  IsDelivered, Stage, Kept-IsDelivered, left-IsDelivered, Behind-IsLeft, grown, next_of-Behind,
  emitted-Behind, frames-IsDelivered, owed, owed-part, results, ending,
}

at-Stage :
    (c : Client) (r : Reader)
    → c.reader ≡ r
    → IsDelivered c
    → Stage r c.done c.events c.incoming c.failure
at-Stage c r p h = subst (λ x. Stage x c.done c.events c.incoming c.failure) p h

close-IsDelivered :
    (conn : Conn) (cause : Option Error) (c : Client)
    → IsDelivered c
    → IsDelivered (close_with_cause conn cause c).0
close-IsDelivered conn cause c h = Kept-IsDelivered (close_with_cause-Kept conn cause c) h

admit-IsDelivered :
    (b : Bool) (cmd : Bytes) (c : Client) → IsDelivered c → IsDelivered (admit b cmd c).0
unfolding admit
admit-IsDelivered true cmd c h = h
admit-IsDelivered false cmd c h = h

begin-IsDelivered : (cmd : Bytes) (c : Client) → IsDelivered c → IsDelivered (begin_send cmd c).0
unfolding begin_send
begin-IsDelivered cmd c h = elim (Bool-cases (is_ascii cmd)) [
  | inl ascii ↦ rw ascii (admit-IsDelivered c.done cmd c h)
  | inr foreign ↦ rw foreign h
]

round-IsDelivered :
    (conn : Conn) (bs : Bytes) (c : Client) → IsDelivered c → IsDelivered (write_round conn bs c)
unfolding write_round
round-IsDelivered conn [] c h = h
round-IsDelivered conn (b ∷ bs) c h = h

result-IsDelivered :
    (conn : Conn) (e : Option Error) (c : Client)
    → IsDelivered c
    → IsDelivered (take_result conn e c).0
unfolding take_result
result-IsDelivered conn none c h = h
result-IsDelivered conn (some e) c h =
    close-IsDelivered conn (some e) (record c { sending = false; writer = resting }) h

Step-IsDelivered : (conn : Conn) (c d : Client) → Step conn c d → IsDelivered c → IsDelivered d
unfolding read_chunk emit report stop_reading give_up time_out
Step-IsDelivered conn c d (begins cmd idle) h = begin-IsDelivered cmd c h
Step-IsDelivered conn c d (writes bs p) h = round-IsDelivered conn bs c h
Step-IsDelivered conn c d (returns e s p) h = result-IsDelivered conn e c h
Step-IsDelivered conn c d (times_out s) h =
    close-IsDelivered conn (some _) (record c { sending = false }) h
Step-IsDelivered conn c d (gives_up s shut) h = h
Step-IsDelivered conn c d closes h = close-IsDelivered conn none c h
Step-IsDelivered conn c d (reads f chunk e p) h =
    let (q, fed, all) = at-Stage c (reading f) p h in
    let (fed', all') = grown f chunk c.incoming c.events fed all in
    next_of-Behind chunk e (Frame.feed f chunk).0 (map decode_frame (Frame.feed f chunk).1) c.events
      (c.incoming ++ chunk) fed' all'
Step-IsDelivered conn c d (emits f r rest next p) h =
    emitted-Behind next f r rest c.events c.incoming c.failure
      (at-Stage c (delivering f (r ∷ rest) next) p h)
Step-IsDelivered conn c d (drops f r rest next p shut) h = left-IsDelivered c shut (
    Behind-IsLeft next f (r ∷ rest) c.events c.incoming c.failure
      (at-Stage c (delivering f (r ∷ rest) next) p h))
Step-IsDelivered conn c d (wakes f p shut) h = left-IsDelivered c shut (
    Behind-IsLeft pausing f [] c.events c.incoming c.failure
      (at-Stage c (delivering f [] pausing) p h))
Step-IsDelivered conn c d (goes_on f next p) h =
    frames-IsDelivered f next c (at-Stage c (delivering f [] next) p h)
Step-IsDelivered conn c d (reports e p) h =
    let (q, eq) = at-Stage c (reporting e) p h in
    ([], append-nil (c.events ++ lost e ∷ []) ∙ eq, inl refl)
Step-IsDelivered conn c d (mutes e p shut) h =
    let (q, eq) = at-Stage c (reporting e) p h in
    left-IsDelivered c shut (lost e ∷ [], eq, inr refl)
Step-IsDelivered conn c d (stops p) h =
    close-IsDelivered conn none (record c { reader = stopped }) (at-Stage c leaving p h)

opened-IsDelivered : IsDelivered opened
unfolding new_client new_decoder results Decoder.feed Frame.feed
opened-IsDelivered = (refl, refl, refl)

Reach-IsDelivered : (conn : Conn) (c : Client) → Reach conn opened c → IsDelivered c
Reach-IsDelivered conn c here = opened-IsDelivered
Reach-IsDelivered conn c (later {d} r s) = Step-IsDelivered conn d c s (Reach-IsDelivered conn d r)

-- The reader still has a result or an error to put on the channel.
abbrev pub is_busy : Reader → Bool
is_busy (reading f) = false
is_busy (delivering f rs next) = true
is_busy (reporting e) = true
is_busy leaving = false
is_busy stopped = false

Stage-owed :
    (r : Reader) (b : Bool) (out : List Received) (bs : Bytes) (fail : Option Error)
    → Stage r b out bs fail
    → (rest : List Received) × (out ++ rest ≡ owed bs fail)
      × ((rest ≡ []) ⊎ (b ≡ true) ⊎ (is_busy r ≡ true))
unfolding ending
Stage-owed (reading f) b out bs fail (p, q, eq) =
    ([], rw p (owed-part out [] bs none (append-nil out ∙ eq)), inl refl)
Stage-owed (delivering f rs next) b out bs fail h =
    let (rest, eq, why) = Behind-IsLeft next f rs out bs fail h in (rest, eq, inr (inr refl))
Stage-owed (reporting e) b out bs fail (p, eq) = (lost e ∷ [], eq, inr (inr refl))
Stage-owed leaving b out bs fail (rest, eq, inl all) = (rest, eq, inl all)
Stage-owed leaving b out bs fail (rest, eq, inr shut) = (rest, eq, inr (inl shut))
Stage-owed stopped b out bs fail (rest, eq, inl all) = (rest, eq, inl all)
Stage-owed stopped b out bs fail (rest, eq, inr shut) = (rest, eq, inr (inl shut))

-- The client implements the package's decoder. In every state of a connection, the events on the
-- channel are a front part of what `Decoder` makes of the bytes that were read, followed, once a
-- `Read` has failed, by the frame that the end cuts, if there is one, and by that error. They are all
-- of it, unless the client is closed or the reader is busy with the rest.
pub events_refine_decoder :
    (conn : Conn) (c : Client)
    → Reach conn opened c
    → (rest : List Received) × (c.events ++ rest ≡ owed c.incoming c.failure)
      × ((rest ≡ []) ⊎ (c.done ≡ true) ⊎ (is_busy c.reader ≡ true))
events_refine_decoder conn c r =
    Stage-owed c.reader c.done c.events c.incoming c.failure (Reach-IsDelivered conn c r)
