-- ===== src/Protocol/Message.antt =====
-- dccex/protocol/message.go: the typed replies and their parser. Texts are the bytes of the Go
-- strings. `Parse` reads runes; the bytes that it tests are ASCII, and in valid UTF-8 an ASCII byte is
-- a rune of its own.
pub mod Shape
pub mod Sound
pub mod Replies
use go_dcc_ex_driver.Base.{
  ℕ, ◌+◌, ◌-◌, ◌*◌, ◌/◌, ◌%◌, ◌^◌, ◌<◌, Bool, true, false, not, ◌&&◌, ◌||◌, List, [], ◌∷◌, ◌++◌,
  ltb, leb, ◌==◌, if◌then◌else◌, length, get_or, take, drop, all, is_empty, ℤ, pos, negsuc,
  pos_part, ltb_ℤ, eq_ℤ, Bytes, codes, eq_bytes, has_prefix, fields, trim_space, valid_utf8, Error,
  malformed, out_of_range, frame_too_large, current_reply, Result, ok, err, ◌>>=◌, ◌>>◌, fail_if,
}
use go_dcc_ex_driver.Protocol.Number.{number}
use go_dcc_ex_driver.Protocol.Frame.{max_frame_size}

-- Stop and emergency stop both display as speed zero.
pub record LocoState : Type 0 where
  pub raw : Bytes
  pub cab : ℤ
  pub reg : ℤ
  pub speed_byte : ℕ
  pub speed : ℤ
  pub direction : ℤ
  pub emergency : Bool
  pub function_mask : ℕ

-- The strings of type `PowerState`: the zero value "", the three constants, and the "MIXED" that the
-- controller adds.
pub data PowerState : Type 0 where
  unreported off on overload mixed : PowerState

pub record TrackPower : Type 0 where
  pub raw : Bytes
  pub state : PowerState
  pub track : Bytes

pub record TrackMode : Type 0 where
  pub raw : Bytes
  pub track : Bytes
  pub mode : Bytes

pub record CurrentInfo : Type 0 where
  pub raw : Bytes
  pub current_ma : ℤ
  pub max_ma : ℤ
  pub trip_ma : ℤ
  pub has_limits : Bool

pub data Operation : Type 0 where
  read write : Operation

pub record CvResult : Type 0 where
  pub raw : Bytes
  pub operation : Operation
  pub cv : ℤ
  pub value : ℤ

pub record AddressResult : Type 0 where
  pub raw : Bytes
  pub operation : Operation
  pub address : ℤ

pub data Event : Type 0 where
  loco_state : LocoState → Event
  track_power : TrackPower → Event
  track_mode : TrackMode → Event
  current_info : CurrentInfo → Event
  cv_result : CvResult → Event
  address_result : AddressResult → Event
  version_info : Bytes → Bytes → Event
  command_rejected : Bytes → Event
  unknown : Bytes → Event

abbrev pub raw_frame : Event → Bytes
raw_frame (loco_state v) = v.raw
raw_frame (track_power v) = v.raw
raw_frame (track_mode v) = v.raw
raw_frame (current_info v) = v.raw
raw_frame (cv_result v) = v.raw
raw_frame (address_result v) = v.raw
raw_frame (version_info raw text) = raw
raw_frame (command_rejected raw) = raw
raw_frame (unknown raw) = raw

-- `Success` of both results
unfoldable pub success : ℤ → Bool
success n = not (eq_ℤ n (negsuc 0))

-- The low seven bits of the speed byte: 0 is stop, 1 emergency stop, and n + 1 is speed n.
unfoldable pub decode_loco : Bytes → ℤ → ℤ → ℕ → ℕ → LocoState
decode_loco m cab reg byte mask =
    let low = byte % 128 in
    record {
      raw = m;
      cab = cab;
      reg = reg;
      speed_byte = byte;
      speed = pos (if ltb 1 low then low - 1 else 0);
      direction = pos (byte / 128);
      emergency = low == 1;
      function_mask = mask;
    }

unfoldable pub parse_loco : Bytes → List Bytes → Result Event
unfolding decode_loco
parse_loco m (a ∷ b ∷ c ∷ d ∷ []) = do
  cab ← number (codes "cab") a (pos 1) (pos 10293)
  reg ← number (codes "reg") b (negsuc 0) (pos 2147483647)
  byte ← number (codes "speed byte") c (pos 0) (pos 255)
  mask ← number (codes "function mask") d (pos 0) (pos 4294967295)
  ok (loco_state (decode_loco m cab reg (pos_part byte % 256) (pos_part mask % 2 ^ 32)))
parse_loco m _ = err malformed

-- One letter from A to H.
unfoldable pub is_output : Bytes → Bool
is_output (c ∷ []) = leb b'A' c && leb c b'H'
is_output _ = false

is_mode_byte : ℕ → Bool
is_mode_byte c = leb b'A' c && leb c b'Z' || c == b'_'

unfoldable pub parse_mode : Bytes → List Bytes → Result Event
unfolding is_output is_mode_byte
parse_mode m (track ∷ mode ∷ []) = do
  fail_if (not (is_output track)) malformed
  fail_if (not (all is_mode_byte mode)) malformed
  ok (track_mode (record { raw = m; track = track; mode = mode }))
parse_mode m (track ∷ mode ∷ address ∷ []) = do
  fail_if (not (is_output track)) malformed
  fail_if (not (all is_mode_byte mode)) malformed
  _ ← number (codes "address") address (pos 0) (pos 10293)
  ok (track_mode (record { raw = m; track = track; mode = mode }))
parse_mode m _ = err malformed

is_track_byte : ℕ → Bool
is_track_byte c =
    leb b'a' c && leb c b'z' || leb b'A' c && leb c b'Z' || leb b'0' c && leb c b'9' || c == b'_'

-- The map from "p0", "p1" and "p2".
power_state : Bytes → PowerState
power_state head =
    if eq_bytes head (codes "p0") then off else if eq_bytes head (codes "p1") then on else overload

unfoldable pub parse_power : Bytes → Bytes → List Bytes → Result Event
unfolding is_track_byte power_state
parse_power m head [] =
    ok (track_power (record { raw = m; state = power_state head; track = codes "ALL" }))
parse_power m head (track ∷ []) = do
  fail_if (not (all is_track_byte track)) malformed
  ok (track_power (record { raw = m; state = power_state head; track = track }))
parse_power m head _ = err malformed

abbrev min_int32 : ℤ
min_int32 = negsuc 2147483647

abbrev max_int32 : ℤ
max_int32 = pos 2147483647

-- `number` in the loop of `parseCurrent`, its error wrapped.
milliamps : Bytes → Result ℤ
milliamps s = elim (number (codes "current") s min_int32 max_int32) [
  | ok n ↦ ok n
  | err e ↦ err (current_reply e)
]

-- `label`: the text bare or in quotes
is_label : Bytes → Bytes → Bool
is_label value want = eq_bytes value want || eq_bytes value (b'"' ∷ (want ++ b'"' ∷ []))

three_currents : Bytes → Bytes → Bytes → Bytes → Result Event
unfolding milliamps
three_currents m a b c = do
  current ← milliamps a
  most ← milliamps b
  trip ← milliamps c
  ok (
      current_info (record {
        raw = m;
        current_ma = current;
        max_ma = most;
        trip_ma = trip;
        has_limits = true;
      }))

unfoldable pub parse_current : Bytes → List Bytes → Result Event
unfolding milliamps is_label three_currents
parse_current m (a ∷ []) = do
  current ← milliamps a
  ok (
      current_info (record {
        raw = m;
        current_ma = current;
        max_ma = pos 0;
        trip_ma = pos 0;
        has_limits = false;
      }))
parse_current m (a ∷ b ∷ c ∷ []) = three_currents m a b c
parse_current m (name ∷ a ∷ unit ∷ prefix ∷ zeroth ∷ b ∷ first ∷ c ∷ []) = do
  fail_if
      (not (is_label name (codes "CurrentMAIN"))
        || not (eq_bytes unit (codes "C"))
        || not (is_label prefix (codes "Milli"))
        || not (is_label zeroth (codes "0"))
        || not (is_label first (codes "1")))
      malformed
  three_currents m a b c
parse_current m _ = err malformed

-- `<r a>` and `<w a>`
parse_address : Bytes → Bytes → Bytes → Result Event
parse_address m head a = do
  n ← number (codes "address") a (negsuc 0) (pos 10293)
  fail_if (eq_ℤ n (pos 0)) out_of_range
  ok (
      address_result (record {
        raw = m;
        operation = if eq_bytes head (codes "w") then write else read;
        address = n;
      }))

-- The rest of the case "v", "r", "w".
parse_cv : Bytes → Bytes → List Bytes → Result Event
parse_cv m head (a ∷ b ∷ []) = do
  fail_if (eq_bytes head (codes "w")) malformed
  cv ← number (codes "cv") a (pos 1) (pos 1024)
  value ← number (codes "value") b (negsuc 0) (pos 255)
  ok (
      cv_result (record {
        raw = m;
        operation = if eq_bytes head (codes "r") then write else read;
        cv = cv;
        value = value;
      }))
parse_cv m head _ = err malformed

unfoldable pub parse_programming : Bytes → Bytes → List Bytes → Result Event
unfolding parse_address parse_cv
parse_programming m head (a ∷ []) =
    if eq_bytes head (codes "v") then parse_cv m head (a ∷ []) else parse_address m head a
parse_programming m head args = parse_cv m head args

abbrev pub is_any : Bytes → Bytes → Bytes → Bytes → Bool
is_any head a b c = eq_bytes head a || eq_bytes head b || eq_bytes head c

-- The `switch`, on the fields of the body.
unfoldable pub dispatch : Bytes → Bytes → Bytes → List Bytes → Result Event
dispatch m body head args =
    if has_prefix head (codes "i")
    then ok (version_info m (trim_space (drop 1 (trim_space body))))
    else if eq_bytes head (codes "X")
    then (do fail_if (not (is_empty args)) malformed; ok (command_rejected m))
    else if eq_bytes head (codes "l")
    then parse_loco m args
    else if eq_bytes head (codes "=")
    then parse_mode m args
    else if is_any head (codes "p0") (codes "p1") (codes "p2")
    then parse_power m head args
    else if eq_bytes head (codes "c")
    then parse_current m args
    else if is_any head (codes "v") (codes "r") (codes "w")
    then parse_programming m head args
    else ok (unknown m)

unfoldable pub dispatch_fields : Bytes → Bytes → List Bytes → Result Event
dispatch_fields m body [] = err malformed
dispatch_fields m body (head ∷ args) = dispatch m body head args

-- A byte that no body may hold.
unfoldable pub is_forbidden : ℕ → Bool
is_forbidden c =
    c == b'<'
    || c == b'>'
    || c == 127
    || (ltb c 32 && not (c == 9) && not (c == 13) && not (c == 10))

unfoldable pub body_of : Bytes → Bytes
body_of frame = take (length frame - 2) (drop 1 frame)

unfoldable pub parse : Bytes → Result Event
parse frame = do
  fail_if (ltb max_frame_size (length frame)) frame_too_large
  fail_if
      (ltb (length frame) 3
        || not (get_or frame 0 0 == b'<')
        || not (get_or frame (length frame - 1) 0 == b'>')
        || not (valid_utf8 frame))
      malformed
  fail_if (not (all (λ c. not (is_forbidden c)) (body_of frame))) malformed
  dispatch_fields frame (body_of frame) (fields (body_of frame))
