-- ===== src/Config/Codec.antt =====
-- config/throttles.go: reading and writing a layout. The JSON itself is the library's, and so an
-- argument of this model; the files are left out.
pub mod Roundtrip
use go_dcc_ex_driver.Base.{
  ℕ, Bool, true, false, List, Option, none, some, ltb, if◌then◌else◌, length, take, Bytes, codes,
  Error, message, Result, ok, ◌>>=◌,
}
use go_dcc_ex_driver.Base
use go_dcc_ex_driver.Config.Throttles.{ThrottleSettings, default_throttles, validate_settings}

-- A decoder and an encoder of `encoding/json` for the values of a type: the first value of a text, with
-- the text behind it, whether a further `Decode` finds nothing but the end there, and the text of a
-- value.
pub record Json {ℓ} (A : Type ℓ) : Type ℓ where
  pub first : Bytes → Result (A × Bytes)
  pub at_end : Bytes → Bool
  pub write : A → Result Bytes

abbrev pub limit : ℕ
limit = 1048576

module _ (json : Json ThrottleSettings) where
  check_layout : ThrottleSettings → Option Error → ThrottleSettings × Option Error
  check_layout s none = (s, none)
  check_layout s (some e) = (default_throttles, some e)

  -- Behind the first value.
  read_layout : Result (ThrottleSettings × Bytes) → ThrottleSettings × Option Error
  unfolding check_layout
  read_layout (Base.err e) = (default_throttles, some e)
  read_layout (ok r) =
      if json.at_end r.1
      then check_layout r.0 (validate_settings r.0)
      else (default_throttles, some (message (codes "unexpected trailing throttle settings data")))

  -- `DecodeThrottles` of a reader of these bytes. It cuts them behind the first byte over the limit, and
  -- refuses them then.
  unfoldable pub decode_throttles : Bytes → ThrottleSettings × Option Error
  unfolding read_layout
  decode_throttles text =
      if ltb limit (length text)
      then (default_throttles, some (message (codes "throttle settings exceed 1 MiB")))
      else read_layout (json.first text)

  write_valid : Option Error → ThrottleSettings → Result Bytes
  write_valid none s = json.write s
  write_valid (some e) s = Base.err e

  -- `EncodeThrottles` into a buffer.
  unfoldable pub encode_throttles : ThrottleSettings → Result Bytes
  unfolding write_valid
  encode_throttles s = write_valid (validate_settings s) s
