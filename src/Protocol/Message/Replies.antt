-- ===== src/Protocol/Message/Replies.antt =====
-- Replies as the firmware prints them, read by `Parse`. `Command.bracket` writes words in brackets,
-- for replies as for commands.
use go_dcc_ex_driver.Base.{
  ℕ, ◌+◌, ◌*◌, ◌^◌, ◌≤◌, ◌<◌, ◌≡◌, refl, Bool, true, false, not, List, [], ◌∷◌, ◌++◌, map, arith,
  ◌==◌, if◌then◌else◌, all, All, All-append, length, length-append, ℤ, pos, negsuc, Between, Bytes,
  codes, has_prefix, eq_bytes, spaced, fields-spaced, valid_utf8-ascii, format_ℤ, ok, IsPlain,
  IsWord,
}
use go_dcc_ex_driver.Protocol.Number.{number-format_ℤ}
use go_dcc_ex_driver.Protocol.Frame.Stream.{IsInner}
use go_dcc_ex_driver.Protocol.Command.{bracket}
use go_dcc_ex_driver.Protocol.Command.Wire.{
  IsToken, format_ℤ-IsToken, All-spaced, length-spaced, tokens-IsWord, bracket-ascii,
}
use go_dcc_ex_driver.Protocol.Message.Shape.{parse-bracket}
use go_dcc_ex_driver.Protocol.Message.{
  loco_state, decode_loco, parse_loco, dispatch, dispatch_fields, is_forbidden, parse,
}

abbrev IsBodyByte : ℕ → Type 0
IsBodyByte c = not (is_forbidden c) ≡ true

allowed_of_plain : (w : Bytes) → All IsPlain w → All IsInner w → All IsBodyByte w
unfolding is_forbidden
allowed_of_plain [] h k = tt
allowed_of_plain (c ∷ w) h k = (ground arith, allowed_of_plain w h.1 k.1)

allowed_of_tokens : (ws : List Bytes) → All IsToken ws → All (All IsBodyByte) ws
allowed_of_tokens [] h = tt
allowed_of_tokens (w ∷ ws) h =
    (allowed_of_plain w h.0.word.plain h.0.inner, allowed_of_tokens ws h.1)

all_of_All : (p : ℕ → Bool) (s : Bytes) → All (λ c. p c ≡ true) s → all p s ≡ true
all_of_All p [] h = refl
all_of_All p (c ∷ s) h = ground (arith, all_of_All p s h.1)

bracket-body :
    (w : Bytes) (ws : List Bytes)
    → IsToken w
    → All IsToken ws
    → all (λ c. not (is_forbidden c)) (w ++ spaced ws) ≡ true
bracket-body w ws h k =
    all_of_All (λ c. not (is_forbidden c)) (w ++ spaced ws)
      (All-append IsBodyByte w (spaced ws) (allowed_of_plain w h.word.plain h.inner)
        (All-spaced IsBodyByte ws (unfold is_forbidden in refl) (allowed_of_tokens ws k)))

nonempty-length : (w : Bytes) → IsWord w → 0 < length w
nonempty-length [] h = absurd (h.nonempty refl)
nonempty-length (c ∷ w) h = omega arith

-- A frame of a few words is read by its first word and the others.
pub parse-words :
    (w : Bytes) (ws : List Bytes)
    → IsToken w
    → All IsToken ws
    → length ws ≤ 4
    → parse (bracket w ws) ≡ dispatch (bracket w ws) (w ++ spaced ws) w ws
unfolding bracket
parse-words w ws h k l =
    let size = length-append {0} w (spaced ws) in
    rw
      (
        parse-bracket (w ++ spaced ws) (omega (arith, size, nonempty-length w h.word))
            (omega (arith, size, h.short, length-spaced ws k))
            (valid_utf8-ascii (bracket w ws) (bracket-ascii w ws h k)) (bracket-body w ws h k),
        fields-spaced w ws h.word (tokens-IsWord ws k),
      )
      (unfold dispatch_fields in refl)

-- The words of `<l cab reg byte mask>`.
abbrev pub loco_reply : ℤ → ℤ → ℕ → ℕ → Bytes
loco_reply cab reg byte mask =
    bracket (b'l' ∷ []) (map format_ℤ (cab ∷ reg ∷ pos byte ∷ pos mask ∷ []))

-- How the firmware codes speed and direction: 0 is stop, and speed n is n + 1; the top bit is set
-- forwards.
abbrev pub speed_code : ℕ → ℕ → ℕ
speed_code speed dir = dir * 128 + (if speed == 0 then 0 else speed + 1)

-- Emergency stop is 1.
abbrev pub emergency_code : ℕ → ℕ
emergency_code dir = dir * 128 + 1

letter : (c : ℕ) → IsPlain c → IsInner c → IsToken (c ∷ [])
letter c p i = record {
  word = record { nonempty = λ e. cc; plain = (p, tt) };
  inner = (i, tt);
  short = omega arith;
}

dispatch-loco :
    (m body : Bytes) (args : List Bytes) → dispatch m body (b'l' ∷ []) args ≡ parse_loco m args
unfolding dispatch has_prefix eq_bytes codes
dispatch-loco m body args = refl

module _ (cab reg : ℤ) (byte mask : ℕ) (cab_range : Between (pos 1) cab (pos 10293))
    (reg_range : Between (negsuc 0) reg (pos 2147483647)) (byte_range : byte < 256)
    (mask_range : mask < 2 ^ 32) where
  parse_loco-reply :
      (m : Bytes)
      → parse_loco m (map format_ℤ (cab ∷ reg ∷ pos byte ∷ pos mask ∷ []))
        ≡ ok (loco_state (decode_loco m cab reg byte mask))
  unfolding parse_loco
  parse_loco-reply m = ground (
    arith,
    number-format_ℤ (codes "cab") cab (pos 1) (pos 10293),
    number-format_ℤ (codes "reg") reg (negsuc 0) (pos 2147483647),
    number-format_ℤ (codes "speed byte") (pos byte) (pos 0) (pos 255),
    number-format_ℤ (codes "function mask") (pos mask) (pos 0) (pos 4294967295),
  )

  pub parse-loco_reply :
      parse (loco_reply cab reg byte mask)
      ≡ ok (loco_state (decode_loco (loco_reply cab reg byte mask) cab reg byte mask))
  parse-loco_reply =
      let args = map format_ℤ (cab ∷ reg ∷ pos byte ∷ pos mask ∷ []) in
      let tokens : All IsToken args = (
        format_ℤ-IsToken cab (omega arith) (omega arith),
        (
          format_ℤ-IsToken reg (omega arith) (omega arith),
          (
            format_ℤ-IsToken (pos byte) (omega arith) (omega arith),
            (format_ℤ-IsToken (pos mask) (omega arith) (omega arith), tt),
          ),
        ),
      ) in
      rw
        (
          parse-words (b'l' ∷ []) args (letter b'l' (omega arith) (omega arith)) tokens
              (omega arith),
          dispatch-loco (loco_reply cab reg byte mask) ((b'l' ∷ []) ++ spaced args) args,
        )
        (parse_loco-reply (loco_reply cab reg byte mask))

-- A `<l …>` reply that the firmware prints for a speed of at most 126 and a direction, with an address
-- of 1 to 10293, a register of -1 to 2147483647 and a mask of 32 bits, is read as that speed and that
-- direction, with no emergency, and with the address, the register and the mask that were printed.
pub parse_moving :
    (cab reg : ℤ) (speed dir mask : ℕ)
    → Between (pos 1) cab (pos 10293)
    → Between (negsuc 0) reg (pos 2147483647)
    → speed ≤ 126
    → dir ≤ 1
    → mask < 2 ^ 32
    → let m = loco_reply cab reg (speed_code speed dir) mask in
      parse m
      ≡ ok (
          loco_state (record {
            raw = m;
            cab = cab;
            reg = reg;
            speed_byte = speed_code speed dir;
            speed = pos speed;
            direction = pos dir;
            emergency = false;
            function_mask = mask;
          }))
unfolding decode_loco
parse_moving cab reg speed dir mask c r s d m =
    let read_back = parse-loco_reply cab reg (speed_code speed dir) mask c r (ground arith) m in
    ground (arith, read_back)
