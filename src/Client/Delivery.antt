-- ===== src/Client/Delivery.antt =====
-- dccex/client/client.go: that the reader delivers what the package's decoder makes of the bytes.
pub mod Refines
use go_dcc_ex_driver.Base.{
  ◌≡◌, refl, sym, ap, ◌∙◌, subst, Bool, true, false, List, [], ◌∷◌, ◌++◌, map, Option, none, some,
  arith, append-nil, append_assoc, Bytes, Error, Result, Bool-cases, ◌⊎◌, inl, inr,
}
use mathlib.Core.List.{map-append}
use go_dcc_ex_driver.Protocol.Frame
use go_dcc_ex_driver.Protocol.Frame.{Framer}
use go_dcc_ex_driver.Protocol.Message.{Event}
use go_dcc_ex_driver.Protocol.Decoder
use go_dcc_ex_driver.Protocol.Decoder.{Decoder, new_decoder, decode_frame}
use go_dcc_ex_driver.Protocol.Decoder.Delivery.{decode-append}
use go_dcc_ex_driver.Client.{
  Conn, Received, decoded, lost, Next, more, pausing, broken, failing, Reader, reading, delivering,
  reporting, leaving, stopped, resting, Client, new_client, is_ascii, admit, begin_send,
  write_round, take_result, time_out, give_up, close_with_cause,
}
use go_dcc_ex_driver.Client.Reading.{
  cut_short, next_of, read_chunk, emit, leave, after_error, after_frames, report, stop_reading,
}
use go_dcc_ex_driver.Client.Closing.{Kept, close_with_cause-Kept}
use go_dcc_ex_driver.Client.Machine.{
  Step, begins, writes, returns, times_out, gives_up, closes, reads, emits, drops, wakes, goes_on,
  reports, mutes, stops, Reach, here, later, opened,
}

-- What the package's `Decoder` makes of the bytes.
unfoldable pub results : Bytes → List Received
results bs = map decoded (Decoder.feed new_decoder bs).1

-- What follows the error that ends the bytes: a frame that it cuts, and the error.
unfoldable pub ending : Decoder → Option Error → List Received
unfolding cut_short
ending d none = []
ending d (some e) = map decoded (cut_short (Decoder.end_stream d).1) ++ lost e ∷ []

-- All that a client owes for these bytes and this error of the last `Read`.
unfoldable pub owed : Bytes → Option Error → List Received
unfolding results ending
owed bs e = results bs ++ ending (Decoder.feed new_decoder bs).0 e

-- The framer of the client stands as that of the decoder.
abbrev IsFed : Framer → Bytes → Type 0
IsFed f bs = (Decoder.feed new_decoder bs).0.framer ≡ f

abbrev Behind : Next → Framer → List (Result Event) → List Received → Bytes → Option Error → Type 0
Behind more f rs out bs fail = (fail ≡ none) × IsFed f bs × (out ++ map decoded rs ≡ results bs)
Behind pausing f rs out bs fail = (fail ≡ none) × IsFed f bs × (out ++ map decoded rs ≡ results bs)
Behind (broken e) f rs out bs fail =
    (fail ≡ some e) × IsFed f bs × (out ++ map decoded rs ≡ results bs)
Behind (failing e) f rs out bs fail =
    (fail ≡ some e) × (out ++ (map decoded rs ++ lost e ∷ []) ≡ owed bs fail)

abbrev IsLeft : Bool → List Received → Bytes → Option Error → Type 0
IsLeft done out bs fail =
    (rest : List Received) × (out ++ rest ≡ owed bs fail) × ((rest ≡ []) ⊎ (done ≡ true))

abbrev Stage : Reader → Bool → List Received → Bytes → Option Error → Type 0
Stage (reading f) done out bs fail = (fail ≡ none) × IsFed f bs × (out ≡ results bs)
Stage (delivering f rs next) done out bs fail = Behind next f rs out bs fail
Stage (reporting e) done out bs fail = (fail ≡ some e) × (out ++ lost e ∷ [] ≡ owed bs fail)
Stage leaving done out bs fail = IsLeft done out bs fail
Stage stopped done out bs fail = IsLeft done out bs fail

abbrev IsDelivered : Client → Type 0
IsDelivered c = Stage c.reader c.done c.events c.incoming c.failure

Stage-shut :
    (r : Reader) (b : Bool) (out : List Received) (bs : Bytes) (fail : Option Error)
    → Stage r b out bs fail
    → Stage r true out bs fail
Stage-shut (reading f) b out bs fail h = h
Stage-shut (delivering f rs next) b out bs fail h = h
Stage-shut (reporting e) b out bs fail h = h
Stage-shut leaving b out bs fail (rest, eq, why) = (rest, eq, inr refl)
Stage-shut stopped b out bs fail (rest, eq, why) = (rest, eq, inr refl)

Kept-IsDelivered : {c d : Client} → Kept c d → IsDelivered c → IsDelivered d
Kept-IsDelivered {c} {d} k h =
    rw (k.shut, k.same_reader, k.same_events, k.same_incoming, k.same_failure)
      (Stage-shut c.reader c.done c.events c.incoming c.failure h)

owed-part :
    (out part : List Received) (bs : Bytes) (fail : Option Error)
    → out ++ part ≡ results bs
    → out ++ (part ++ ending (Decoder.feed new_decoder bs).0 fail) ≡ owed bs fail
unfolding owed
owed-part out part bs fail p =
    let last = ending (Decoder.feed new_decoder bs).0 fail in
    sym (append_assoc out part last) ∙ ap (λ front. front ++ last) p

-- What a reader still owes, when it may leave as the client is closed.
Behind-IsLeft :
    (next : Next) (f : Framer) (rs : List (Result Event)) (out : List Received) (bs : Bytes)
    (fail : Option Error)
    → Behind next f rs out bs fail
    → IsLeft true out bs fail
Behind-IsLeft more f rs out bs fail (p, q, r) =
    (_, owed-part out (map decoded rs) bs fail r, inr refl)
Behind-IsLeft pausing f rs out bs fail (p, q, r) =
    (_, owed-part out (map decoded rs) bs fail r, inr refl)
Behind-IsLeft (broken e) f rs out bs fail (p, q, r) =
    (_, owed-part out (map decoded rs) bs fail r, inr refl)
Behind-IsLeft (failing e) f rs out bs fail (p, r) = (map decoded rs ++ lost e ∷ [], r, inr refl)

left-IsDelivered :
    (c : Client) → c.done ≡ true → IsLeft true c.events c.incoming c.failure → IsDelivered (leave c)
unfolding leave
left-IsDelivered c shut h = subst (λ b. IsLeft b c.events c.incoming c.failure) (sym shut) h

-- A chunk is framed and decoded as the decoder does it.
abbrev IsGrown : Framer → Bytes → Bytes → List Received → Type 0
IsGrown f chunk bs out =
    IsFed (Frame.feed f chunk).0 (bs ++ chunk)
    × (out ++ map decoded (map decode_frame (Frame.feed f chunk).1) ≡ results (bs ++ chunk))

results-append :
    (bs chunk : Bytes)
    → results (bs ++ chunk)
      ≡ results bs ++ map decoded (Decoder.feed (Decoder.feed new_decoder bs).0 chunk).1
unfolding results
results-append bs chunk =
    ap (λ r. map decoded r.1) (decode-append new_decoder bs chunk)
    ∙ map-append decoded (Decoder.feed new_decoder bs).1
        (Decoder.feed (Decoder.feed new_decoder bs).0 chunk).1

grown :
    (f : Framer) (chunk bs : Bytes) (out : List Received)
    → IsFed f bs
    → out ≡ results bs
    → IsGrown f chunk bs out
grown f chunk bs out p q =
    subst (λ g. IsGrown g chunk bs out) p
      (
        ap (λ r. r.0.framer) (decode-append new_decoder bs chunk) ∙ unfold Decoder.feed in refl,
        rw (results-append bs chunk, q) (unfold Decoder.feed in refl),
      )

next_of-Behind :
    (chunk : Bytes) (e : Option Error) (f : Framer) (rs : List (Result Event)) (out : List Received)
    (bs : Bytes)
    → IsFed f bs
    → out ++ map decoded rs ≡ results bs
    → Behind (next_of chunk e) f rs out bs e
unfolding next_of
next_of-Behind chunk (some e) f rs out bs p q = (refl, p, q)
next_of-Behind [] none f rs out bs p q = (refl, p, q)
next_of-Behind (b ∷ bs') none f rs out bs p q = (refl, p, q)

emitted-Behind :
    (next : Next) (f : Framer) (r : Result Event) (rs : List (Result Event)) (out : List Received)
    (bs : Bytes) (fail : Option Error)
    → Behind next f (r ∷ rs) out bs fail
    → Behind next f rs (out ++ decoded r ∷ []) bs fail
emitted-Behind more f r rs out bs fail (p, q, eq) =
    (p, q, append_assoc out (decoded r ∷ []) (map decoded rs) ∙ eq)
emitted-Behind pausing f r rs out bs fail (p, q, eq) =
    (p, q, append_assoc out (decoded r ∷ []) (map decoded rs) ∙ eq)
emitted-Behind (broken e) f r rs out bs fail (p, q, eq) =
    (p, q, append_assoc out (decoded r ∷ []) (map decoded rs) ∙ eq)
emitted-Behind (failing e) f r rs out bs fail (p, eq) =
    (p, append_assoc out (decoded r ∷ []) (map decoded rs ++ lost e ∷ []) ∙ eq)

error-IsDelivered :
    (b : Bool) (f : Framer) (e : Error) (c : Client)
    → c.done ≡ b
    → Behind (broken e) f [] c.events c.incoming c.failure
    → IsDelivered (after_error b f e c)
unfolding after_error ending Decoder.end_stream
error-IsDelivered true f e c shut h =
    left-IsDelivered c shut (Behind-IsLeft (broken e) f [] c.events c.incoming c.failure h)
error-IsDelivered false f e c open_now (p, q, r) = rw p (
  refl,
  ap (λ g. c.events ++ (map decoded (cut_short (Frame.end_stream g).1) ++ lost e ∷ [])) (sym q)
      ∙ owed-part c.events [] c.incoming (some e) r,
)

frames-IsDelivered :
    (f : Framer) (next : Next) (c : Client)
    → Behind next f [] c.events c.incoming c.failure
    → IsDelivered (after_frames f next c)
unfolding after_frames
frames-IsDelivered f more c (p, q, r) = (p, q, sym (append-nil c.events) ∙ r)
frames-IsDelivered f pausing c (p, q, r) = (p, q, sym (append-nil c.events) ∙ r)
frames-IsDelivered f (broken e) c h = error-IsDelivered c.done f e c refl h
frames-IsDelivered f (failing e) c h = h
