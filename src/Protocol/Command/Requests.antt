-- ===== src/Protocol/Command/Requests.antt =====
-- The encoders taken together: which requests they accept, and what an accepted one puts on the wire.
use go_dcc_ex_driver.Base.{
  ℕ, ◌≤◌, ◌<◌, ◌≡◌, refl, sym, ap, ◌≢◌, ◌↔◌, ◌⊎◌, inl, inr, Bool, true, false, List, [], ◌∷◌, map,
  arith, ℤ, pos, negsuc, ◌≤ℤ◌, Between, Bytes, codes, format_ℤ, fields, fields-spaced, eq_bytes,
  eq_bytes_sound, eq_bytes_refl, All, Result, ok, Bool-cases, if◌then◌else◌, length, IsPlain,
}
use go_dcc_ex_driver.Protocol.Number.{in_range}
use go_dcc_ex_driver.Protocol.Message.{body_of}
use go_dcc_ex_driver.Protocol.Frame.Stream.{IsFrame, IsInner}
use go_dcc_ex_driver.Protocol.Command.{
  bracket, command, encode_status, encode_track_query, encode_emergency_stop, encode_current_query,
  encode_read_address, all_tracks, main_track, prog_track, power_op, encode_power, check_cab,
  check_cv, check_value, encode_loco_request, encode_throttle, encode_function,
  encode_write_address, encode_read_cv, encode_write_cv, encode_program_on_main,
}
use go_dcc_ex_driver.Protocol.Command.Wire.{
  IsToken, format_ℤ-IsToken, bracket-IsFrame, bracket-ascii, body_of-bracket, tokens-IsWord,
}

-- A call of an encoder.
pub data Request : Type 0 where
  status track_query emergency_stop current_query read_address : Request
  power : Bool → Bytes → Request
  loco_request write_address read_cv : ℤ → Request
  throttle function program_on_main : ℤ → ℤ → ℤ → Request
  write_cv : ℤ → ℤ → Request

unfoldable pub encode : Request → Result Bytes
encode status = ok encode_status
encode track_query = ok encode_track_query
encode emergency_stop = ok encode_emergency_stop
encode current_query = ok encode_current_query
encode read_address = ok encode_read_address
encode (power on track) = encode_power on track
encode (loco_request cab) = encode_loco_request cab
encode (write_address cab) = encode_write_address cab
encode (read_cv cv) = encode_read_cv cv
encode (throttle cab speed dir) = encode_throttle cab speed dir
encode (function cab n state) = encode_function cab n state
encode (program_on_main cab cv value) = encode_program_on_main cab cv value
encode (write_cv cv value) = encode_write_cv cv value

abbrev pub IsCab : ℤ → Type 0
IsCab n = Between (pos 1) n (pos 10293)

abbrev pub IsCv : ℤ → Type 0
IsCv n = Between (pos 1) n (pos 1024)

abbrev pub IsValue : ℤ → Type 0
IsValue n = Between (pos 0) n (pos 255)

-- The ranges of the DCC-EX native protocol.
abbrev pub IsAllowed : Request → Type 0
IsAllowed (power on track) = (track ≡ all_tracks) ⊎ ((track ≡ main_track) ⊎ (track ≡ prog_track))
IsAllowed (loco_request cab) = IsCab cab
IsAllowed (write_address cab) = IsCab cab
IsAllowed (read_cv cv) = IsCv cv
IsAllowed (throttle cab speed dir) =
    IsCab cab × Between (negsuc 0) speed (pos 126) × Between (pos 0) dir (pos 1)
IsAllowed (function cab n state) =
    IsCab cab × Between (pos 0) n (pos 68) × Between (pos 0) state (pos 1)
IsAllowed (program_on_main cab cv value) = IsCab cab × IsCv cv × IsValue value
IsAllowed (write_cv cv value) = IsCv cv × IsValue value
IsAllowed _ = Unit

-- The words of the command.
abbrev pub words : Request → Bytes × List Bytes
words status = (b's' ∷ [], [])
words track_query = (b'=' ∷ [], [])
words emergency_stop = (b'!' ∷ [], [])
words current_query = (b'c' ∷ [], [])
words read_address = (b'R' ∷ [], [])
words (power on track) = (power_op on, if eq_bytes track all_tracks then [] else track ∷ [])
words (loco_request cab) = (b't' ∷ [], map format_ℤ (cab ∷ []))
words (write_address cab) = (b'W' ∷ [], map format_ℤ (cab ∷ []))
words (read_cv cv) = (b'R' ∷ [], map format_ℤ (cv ∷ []))
words (throttle cab speed dir) = (b't' ∷ [], map format_ℤ (cab ∷ speed ∷ dir ∷ []))
words (function cab n state) = (b'F' ∷ [], map format_ℤ (cab ∷ n ∷ state ∷ []))
words (program_on_main cab cv value) = (b'w' ∷ [], map format_ℤ (cab ∷ cv ∷ value ∷ []))
words (write_cv cv value) = (b'W' ∷ [], map format_ℤ (cv ∷ value ∷ []))

-- An accepted request is allowed, and its command is its words in brackets.
encode_sound :
    (r : Request) {s : Bytes}
    → encode r ≡ ok s
    → IsAllowed r × (s ≡ bracket (words r).0 (words r).1)
unfolding encode
encode_sound status h = unfold encode_status command in ground arith
encode_sound track_query h = unfold encode_track_query command in ground arith
encode_sound emergency_stop h = unfold encode_emergency_stop command in ground arith
encode_sound current_query h = unfold encode_current_query command in ground arith
encode_sound read_address h = unfold encode_read_address command in ground arith
encode_sound (power on track) h =
    unfold encode_power in
    ground (
      arith,
      eq_bytes_sound track all_tracks,
      eq_bytes_sound track main_track,
      eq_bytes_sound track prog_track,
    )
encode_sound (loco_request cab) h =
    unfold encode_loco_request check_cab in_range command in ground arith
encode_sound (write_address cab) h =
    unfold encode_write_address check_cab in_range command in ground arith
encode_sound (read_cv cv) h = unfold encode_read_cv check_cv in_range command in ground arith
encode_sound (throttle cab speed dir) h =
    unfold encode_throttle check_cab in_range command in ground arith
encode_sound (function cab n state) h =
    unfold encode_function check_cab in_range command in ground arith
encode_sound (program_on_main cab cv value) h =
    unfold encode_program_on_main check_cab check_cv check_value in_range command in ground arith
encode_sound (write_cv cv value) h =
    unfold encode_write_cv check_cv check_value in_range command in ground arith

power_complete :
    (on : Bool) (track : Bytes)
    → IsAllowed (power on track)
    → encode_power on track ≡ ok (bracket (words (power on track)).0 (words (power on track)).1)
unfolding encode_power eq_bytes codes
power_complete on track (inl e) = rw e
power_complete on track (inr (inl e)) = rw e
power_complete on track (inr (inr e)) = rw e

encode_complete : (r : Request) → IsAllowed r → encode r ≡ ok (bracket (words r).0 (words r).1)
unfolding encode
encode_complete status h = unfold encode_status command in refl
encode_complete track_query h = unfold encode_track_query command in refl
encode_complete emergency_stop h = unfold encode_emergency_stop command in refl
encode_complete current_query h = unfold encode_current_query command in refl
encode_complete read_address h = unfold encode_read_address command in refl
encode_complete (power on track) h = power_complete on track h
encode_complete (loco_request cab) h =
    unfold encode_loco_request check_cab in_range command in ground arith
encode_complete (write_address cab) h =
    unfold encode_write_address check_cab in_range command in ground arith
encode_complete (read_cv cv) h = unfold encode_read_cv check_cv in_range command in ground arith
encode_complete (throttle cab speed dir) h =
    unfold encode_throttle check_cab in_range command in ground arith
encode_complete (function cab n state) h =
    unfold encode_function check_cab in_range command in ground arith
encode_complete (program_on_main cab cv value) h =
    unfold encode_program_on_main check_cab check_cv check_value in_range command in ground arith
encode_complete (write_cv cv value) h =
    unfold encode_write_cv check_cv check_value in_range command in ground arith

-- An encoder accepts exactly the requests whose values lie in the protocol's ranges, and the command
-- is then the request's words in brackets.
pub encode-ok_iff :
    (r : Request) (s : Bytes)
    → (encode r ≡ ok s) ↔ (IsAllowed r × (s ≡ bracket (words r).0 (words r).1))
encode-ok_iff r s = (encode_sound r, λ h. rw (encode_complete r h.0) (ap ok (sym h.1)))

plain-IsToken : (w : Bytes) → w ≢ [] → All IsPlain w → All IsInner w → length w ≤ 12 → IsToken w
plain-IsToken w n p i l = record { word = record { nonempty = n; plain = p }; inner = i; short = l }

pub letter-IsToken : (c : ℕ) → IsPlain c → IsInner c → IsToken (c ∷ [])
letter-IsToken c p i = plain-IsToken (c ∷ []) (λ e. cc) (p, tt) (i, tt) (omega arith)

named-IsToken : (t : Bytes) → (t ≡ main_track) ⊎ (t ≡ prog_track) → IsToken t
unfolding codes
named-IsToken t (inl e) =
    rw e (plain-IsToken main_track (λ e. cc) (omega arith) (omega arith) (omega arith))
named-IsToken t (inr e) =
    rw e (plain-IsToken prog_track (λ e. cc) (omega arith) (omega arith) (omega arith))

track-IsToken :
    (t : Bytes)
    → (t ≡ all_tracks) ⊎ ((t ≡ main_track) ⊎ (t ≡ prog_track))
    → All IsToken (if eq_bytes t all_tracks then [] else t ∷ [])
track-IsToken t (inl e) = rw (e, eq_bytes_refl all_tracks) tt
track-IsToken t (inr h) = elim (Bool-cases (eq_bytes t all_tracks)) [
  | inl e ↦ rw e tt
  | inr e ↦ rw e (named-IsToken t h, tt)
]

op-IsToken : (on : Bool) → IsToken (power_op on)
op-IsToken true = letter-IsToken b'1' (omega arith) (omega arith)
op-IsToken false = letter-IsToken b'0' (omega arith) (omega arith)

number-IsToken :
    (lo n hi : ℤ) → Between lo n hi → negsuc 0 ≤ℤ lo → hi ≤ℤ pos 10293 → IsToken (format_ℤ n)
number-IsToken lo n hi h l m = format_ℤ-IsToken n (omega arith) (omega arith)

cab-IsToken : (n : ℤ) → IsCab n → IsToken (format_ℤ n)
cab-IsToken n h = number-IsToken (pos 1) n (pos 10293) h (omega arith) (omega arith)

cv-IsToken : (n : ℤ) → IsCv n → IsToken (format_ℤ n)
cv-IsToken n h = number-IsToken (pos 1) n (pos 1024) h (omega arith) (omega arith)

value-IsToken : (n : ℤ) → IsValue n → IsToken (format_ℤ n)
value-IsToken n h = number-IsToken (pos 0) n (pos 255) h (omega arith) (omega arith)

bit-IsToken : (n : ℤ) → Between (pos 0) n (pos 1) → IsToken (format_ℤ n)
bit-IsToken n h = number-IsToken (pos 0) n (pos 1) h (omega arith) (omega arith)

abbrev AreTokens : Bytes × List Bytes → Type 0
AreTokens (w, ws) = IsToken w × All IsToken ws × (length ws ≤ 4)

words-AreTokens : (r : Request) → IsAllowed r → AreTokens (words r)
words-AreTokens status h = (letter-IsToken b's' (omega arith) (omega arith), tt, omega arith)
words-AreTokens track_query h = (letter-IsToken b'=' (omega arith) (omega arith), tt, omega arith)
words-AreTokens emergency_stop h =
    (letter-IsToken b'!' (omega arith) (omega arith), tt, omega arith)
words-AreTokens current_query h = (letter-IsToken b'c' (omega arith) (omega arith), tt, omega arith)
words-AreTokens read_address h = (letter-IsToken b'R' (omega arith) (omega arith), tt, omega arith)
words-AreTokens (power on track) h = (op-IsToken on, track-IsToken track h, ground arith)
words-AreTokens (loco_request cab) h =
    (letter-IsToken b't' (omega arith) (omega arith), (cab-IsToken cab h, tt), omega arith)
words-AreTokens (write_address cab) h =
    (letter-IsToken b'W' (omega arith) (omega arith), (cab-IsToken cab h, tt), omega arith)
words-AreTokens (read_cv cv) h =
    (letter-IsToken b'R' (omega arith) (omega arith), (cv-IsToken cv h, tt), omega arith)
words-AreTokens (throttle cab speed dir) (c, s, d) =
    let fast = number-IsToken (negsuc 0) speed (pos 126) s (omega arith) (omega arith) in
    (
      letter-IsToken b't' (omega arith) (omega arith),
      (cab-IsToken cab c, (fast, (bit-IsToken dir d, tt))),
      omega arith,
    )
words-AreTokens (function cab n state) (c, f, d) =
    let button = number-IsToken (pos 0) n (pos 68) f (omega arith) (omega arith) in
    (
      letter-IsToken b'F' (omega arith) (omega arith),
      (cab-IsToken cab c, (button, (bit-IsToken state d, tt))),
      omega arith,
    )
words-AreTokens (program_on_main cab cv value) (c, v, b) = (
  letter-IsToken b'w' (omega arith) (omega arith),
  (cab-IsToken cab c, (cv-IsToken cv v, (value-IsToken value b, tt))),
  omega arith,
)
words-AreTokens (write_cv cv value) (v, b) = (
  letter-IsToken b'W' (omega arith) (omega arith),
  (cv-IsToken cv v, (value-IsToken value b, tt)),
  omega arith,
)

-- Every accepted command is one frame, brackets round a body without brackets and at most 4096 bytes,
-- and consists of ASCII bytes.
pub encode-IsFrame : (r : Request) {s : Bytes} → encode r ≡ ok s → IsFrame s × All (λ c. c < 128) s
encode-IsFrame r h =
    let (allowed, e) = encode_sound r h in
    let (w, ws, l) = words-AreTokens r allowed in
    rw e
      (bracket-IsFrame (words r).0 (words r).1 w ws l, bracket-ascii (words r).0 (words r).1 w ws)

-- The words of an accepted command are read back from it as the fields of its body: its letter and
-- the printed numbers, none merged with another or cut.
pub encode-fields :
    (r : Request) {s : Bytes} → encode r ≡ ok s → fields (body_of s) ≡ (words r).0 ∷ (words r).1
encode-fields r h =
    let (allowed, e) = encode_sound r h in
    let (w, ws, l) = words-AreTokens r allowed in
    rw (e, body_of-bracket (words r).0 (words r).1)
      (fields-spaced (words r).0 (words r).1 w.word (tokens-IsWord (words r).1 ws))
