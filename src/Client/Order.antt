-- ===== src/Client/Order.antt =====
-- dccex/client/client.go: that commands reach the connection whole and in order.
use go_dcc_ex_driver.Base.{
  ℕ, ◌≡◌, refl, sym, ap, ◌∙◌, Bool, true, false, List, [], ◌∷◌, ◌++◌, Option, none, some, arith,
  length, append-nil, append_assoc, Bytes, codes, message, Error, Bool-cases, subst, ◌⊎◌, inl, inr,
}
use go_dcc_ex_driver.Protocol.Frame.{Framer}
use go_dcc_ex_driver.Client.{
  Conn, close_with_cause, Writer, resting, writing, finished, Client, line_of, is_ascii, taken,
  written_on, Next, more, pausing, broken, failing, admit, begin_send, write_round, take_result,
  time_out, give_up, new_client, stopped,
}
use go_dcc_ex_driver.Client.Reading.{
  after_error, after_frames, stop_reading, read_chunk, emit, leave, report,
}
use go_dcc_ex_driver.Client.Closing.{close_with_cause-Kept}
use go_dcc_ex_driver.Client.Writes.{untaken, sent-untaken}
use go_dcc_ex_driver.Client.Machine.{
  Step, begins, writes, returns, times_out, gives_up, closes, reads, emits, drops, wakes, goes_on,
  reports, mutes, stops, Reach, here, later, opened,
}

-- The commands as lines.
abbrev pub lines : List Bytes → Bytes
lines [] = []
lines (cmd ∷ cmds) = line_of cmd ++ lines cmds

lines-append :
    (cmds : List Bytes) (cmd : Bytes) → lines (cmds ++ cmd ∷ []) ≡ lines cmds ++ line_of cmd
lines-append [] cmd = append-nil (line_of cmd)
lines-append (x ∷ cmds) cmd =
    ap (◌++◌ (line_of x)) (lines-append cmds cmd)
    ∙ sym (append_assoc (line_of x) (lines cmds) (line_of cmd))

-- What is not sent yet, while the writer stands so on a client that is closed or not, and is or is
-- not sending.
abbrev Fits : Writer → Bool → Bool → Bytes → Type 0
Fits resting done sending rest = done ≡ false → rest ≡ []
Fits (writing bs) done sending rest = (rest ≡ bs) × (done ≡ false → sending ≡ true)
Fits (finished none) done sending rest = (rest ≡ []) × (done ≡ false → sending ≡ true)
Fits (finished (some e)) done sending rest = done ≡ false → sending ≡ true

abbrev Orders : Writer → Bool → Bool → Bytes → List Bytes → Type 0
Orders w done sending out cmds =
    (rest : Bytes) × (out ++ rest ≡ lines cmds) × Fits w done sending rest

abbrev IsOrdered : Client → Type 0
IsOrdered c = Orders c.writer c.done c.sending c.sent c.begun

Fits-closed : (w : Writer) (b s t : Bool) (rest : Bytes) → Fits w b s rest → Fits w true t rest
Fits-closed resting b s t rest h = ground arith
Fits-closed (writing bs) b s t rest h = ground arith
Fits-closed (finished none) b s t rest h = ground arith
Fits-closed (finished (some e)) b s t rest h = ground arith

-- While nobody is sending on an open client, everything is sent.
Fits-free :
    (w : Writer) (b s : Bool) (rest : Bytes) → Fits w b s rest → b ≡ false → s ≡ false → rest ≡ []
Fits-free resting b s rest h p q = ground arith
Fits-free (writing bs) b s rest h p q = ground arith
Fits-free (finished none) b s rest h p q = ground arith
Fits-free (finished (some e)) b s rest h p q = ground arith

shut-IsOrdered :
    (c d : Client)
    → d.done ≡ true
    → d.writer ≡ c.writer
    → d.sent ≡ c.sent
    → d.begun ≡ c.begun
    → IsOrdered c
    → IsOrdered d
shut-IsOrdered c d p q r s (rest, eq, fits) =
    rw (p, q, r, s) (rest, eq, Fits-closed c.writer c.done c.sending d.sending rest fits)

close-IsOrdered :
    (conn : Conn) (cause : Option Error) (c : Client)
    → IsOrdered c
    → IsOrdered (close_with_cause conn cause c).0
close-IsOrdered conn cause c h =
    let k = close_with_cause-Kept conn cause c in
    shut-IsOrdered c (close_with_cause conn cause c).0 k.shut k.same_writer k.same_sent k.same_begun
      h

admit-IsOrdered :
    (b : Bool) (cmd : Bytes) (c : Client)
    → c.done ≡ b
    → c.sending ≡ false
    → IsOrdered c
    → IsOrdered (admit b cmd c).0
unfolding admit
admit-IsOrdered true cmd c shut idle h = h
admit-IsOrdered false cmd c shut idle (rest, eq, fits) =
    let all = Fits-free c.writer c.done c.sending rest fits shut idle in
    (
      line_of cmd,
      ap (λ front. front ++ line_of cmd) (sym (append-nil c.sent) ∙ ap (◌++◌ c.sent) (sym all) ∙ eq)
          ∙ sym (lines-append c.begun cmd),
      (refl, λ q. refl),
    )

begin-IsOrdered :
    (cmd : Bytes) (c : Client) → c.sending ≡ false → IsOrdered c → IsOrdered (begin_send cmd c).0
unfolding begin_send
begin-IsOrdered cmd c idle h = elim (Bool-cases (is_ascii cmd)) [
  | inl ascii ↦ rw ascii (admit-IsOrdered c.done cmd c refl idle h)
  | inr foreign ↦ rw foreign h
]

written_on-Fits :
    (count : Option ℕ) (e : Option Error) (bs : Bytes) (b s : Bool)
    → (b ≡ false → s ≡ true)
    → Fits (written_on count e bs) b s (untaken count bs)
unfolding written_on
written_on-Fits count (some e) bs b s h = h
written_on-Fits none none bs b s h = h
written_on-Fits (some n) none bs b s h = (refl, h)

round-IsOrdered :
    (conn : Conn) (bs : Bytes) (c : Client)
    → c.writer ≡ writing bs
    → IsOrdered c
    → IsOrdered (write_round conn bs c)
unfolding write_round
round-IsOrdered conn [] c p (rest, eq, fits) =
    (rest, eq, subst (λ w. Fits w c.done c.sending rest) p fits)
round-IsOrdered conn (b ∷ bs) c p (rest, eq, fits) =
    let answer = conn.write c.written (b ∷ bs) in
    let count = taken answer.0 (length (b ∷ bs)) in
    let (all, busy) = subst (λ w. Fits w c.done c.sending rest) p fits in
    (
      untaken count (b ∷ bs),
      sent-untaken count c.sent (b ∷ bs) ∙ ap (◌++◌ c.sent) (sym all) ∙ eq,
      written_on-Fits count answer.1 (b ∷ bs) c.done c.sending busy,
    )

result-IsOrdered :
    (conn : Conn) (e : Option Error) (c : Client)
    → c.writer ≡ finished e
    → IsOrdered c
    → IsOrdered (take_result conn e c).0
unfolding take_result
result-IsOrdered conn none c p (rest, eq, fits) =
    (rest, eq, λ open_now. (subst (λ w. Fits w c.done c.sending rest) p fits).0)
result-IsOrdered conn (some e) c p (rest, eq, fits) =
    let k = close_with_cause-Kept conn (some e) (record c { sending = false; writer = resting }) in
    rw (k.shut, k.same_writer, k.same_sent, k.same_begun) (rest, eq, λ q. ground arith)

out_of_time-IsOrdered : (conn : Conn) (c : Client) → IsOrdered c → IsOrdered (time_out conn c).0
unfolding time_out
out_of_time-IsOrdered conn c h =
    let e = some (message (codes "command write timed out")) in
    let k = close_with_cause-Kept conn e (record c { sending = false }) in
    shut-IsOrdered c (close_with_cause conn e (record c { sending = false })).0 k.shut k.same_writer
      k.same_sent k.same_begun h

error-IsOrdered :
    (b : Bool) (f : Framer) (e : Error) (c : Client) → IsOrdered c → IsOrdered (after_error b f e c)
unfolding after_error
error-IsOrdered true f e c h = h
error-IsOrdered false f e c h = h

frames-IsOrdered :
    (f : Framer) (next : Next) (c : Client) → IsOrdered c → IsOrdered (after_frames f next c)
unfolding after_frames
frames-IsOrdered f more c h = h
frames-IsOrdered f pausing c h = h
frames-IsOrdered f (failing e) c h = h
frames-IsOrdered f (broken e) c h = error-IsOrdered c.done f e c h

Step-IsOrdered : (conn : Conn) (c d : Client) → Step conn c d → IsOrdered c → IsOrdered d
unfolding read_chunk emit leave report stop_reading give_up
Step-IsOrdered conn c d (begins cmd idle) h = begin-IsOrdered cmd c idle h
Step-IsOrdered conn c d (writes bs p) h = round-IsOrdered conn bs c p h
Step-IsOrdered conn c d (returns e s p) h = result-IsOrdered conn e c p h
Step-IsOrdered conn c d (times_out s) h = out_of_time-IsOrdered conn c h
Step-IsOrdered conn c d (gives_up s shut) h = shut-IsOrdered c (give_up c).0 shut refl refl refl h
Step-IsOrdered conn c d closes h = close-IsOrdered conn none c h
Step-IsOrdered conn c d (reads f chunk e p) h = h
Step-IsOrdered conn c d (emits f r rest next p) h = h
Step-IsOrdered conn c d (drops f r rest next p q) h = h
Step-IsOrdered conn c d (wakes f p q) h = h
Step-IsOrdered conn c d (goes_on f next p) h = frames-IsOrdered f next c h
Step-IsOrdered conn c d (reports e p) h = h
Step-IsOrdered conn c d (mutes e p q) h = h
Step-IsOrdered conn c d (stops p) h = close-IsOrdered conn none (record c { reader = stopped }) h

Reach-IsOrdered : (conn : Conn) (c d : Client) → IsOrdered c → Reach conn c d → IsOrdered d
Reach-IsOrdered conn c d h here = h
Reach-IsOrdered conn c d h (later {d = b} r s) =
    Step-IsOrdered conn b d s (Reach-IsOrdered conn c b h r)

opened-IsOrdered : IsOrdered opened
unfolding new_client
opened-IsOrdered = ([], refl, λ q. refl)

Fits-cases :
    (w : Writer) (b s : Bool) (rest : Bytes)
    → Fits w b s rest
    → (b ≡ true) ⊎ (s ≡ true) ⊎ (rest ≡ [])
Fits-cases w true s rest h = inl refl
Fits-cases w false true rest h = inr (inl refl)
Fits-cases w false false rest h = inr (inr (Fits-free w false false rest h refl refl))

-- In every state of a connection, whatever it answers and however its readers, senders and closers
-- interleave, the bytes that it took are a front part of the lines of the commands that were let
-- through, in that order; they are all of them, unless the client is closed or a command is being
-- sent.
pub sent_in_order :
    (conn : Conn) (c : Client)
    → Reach conn opened c
    → (rest : Bytes) × (c.sent ++ rest ≡ lines c.begun)
      × ((c.done ≡ true) ⊎ (c.sending ≡ true) ⊎ (rest ≡ []))
sent_in_order conn c r =
    let (rest, eq, fits) = Reach-IsOrdered conn opened c opened-IsOrdered r in
    (rest, eq, Fits-cases c.writer c.done c.sending rest fits)
