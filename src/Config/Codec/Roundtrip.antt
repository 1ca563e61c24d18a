-- ===== src/Config/Codec/Roundtrip.antt =====
-- config/throttles.go: that a layout that was written is read again.
use go_dcc_ex_driver.Base.{
  ◌≡◌, refl, ◌≤◌, true, false, Option, none, some, arith, ltb, length, Bytes, Error, ok,
}
use go_dcc_ex_driver.Config.Throttles.{ThrottleSettings, validate_settings}
use go_dcc_ex_driver.Config.Codec.{
  Json, limit, check_layout, read_layout, decode_throttles, write_valid, encode_throttles,
}

-- What the encoder writes of a valid layout, the decoder reads, up to the end.
pub record JsonLaws (json : Json ThrottleSettings) : Type 0 where
  pub first-write :
      (s : ThrottleSettings) (text : Bytes)
      → validate_settings s ≡ none
      → json.write s ≡ ok text
      → (rest : Bytes) × (json.first text ≡ ok (s, rest)) × (json.at_end rest ≡ true)

valid_written :
    (json : Json ThrottleSettings) (o : Option Error) (s : ThrottleSettings) (text : Bytes)
    → write_valid json o s ≡ ok text
    → (o ≡ none) × (json.write s ≡ ok text)
unfolding write_valid
valid_written json none s text h = (refl, h)
valid_written json (some e) s text h = ground arith

pub decode-encode :
    (json : Json ThrottleSettings)
    → JsonLaws json
    → (s : ThrottleSettings) (text : Bytes) → encode_throttles json s ≡ ok text
    → length text ≤ limit
    → decode_throttles json text ≡ (s, none)
unfolding encode_throttles decode_throttles read_layout check_layout
decode-encode json laws s text h short =
    let (valid, written) = valid_written json (validate_settings s) s text h in
    let (rest, read, done) = laws.first-write s text valid written in
    let fits : ltb limit (length text) ≡ false = ground arith in rw (fits, read, done, valid) refl
