-- ===== src/Config/Settings.antt =====
-- config/config.go: the function modes, with the JSON library as an argument. The files are left out.
pub mod Roundtrip
use go_dcc_ex_driver.Base.{
  ℕ, zero, suc, Bool, true, false, ◌||◌, List, [], ◌∷◌, Option, none, some, ltb, if◌then◌else◌,
  is_empty, take, set, replicate, ℤ, pos, negsuc, Bytes, codes, eq_bytes, Error, message, Result,
  ok, ◌>>=◌,
}
use go_dcc_ex_driver.Base
use go_dcc_ex_driver.Config.Codec.{limit}

pub record Settings : Type 0 where
  pub toggle : List Bool  -- [29]bool

-- `Default`
unfoldable pub default_settings : Settings
default_settings = record { toggle = set (replicate 29 false) 3 true }

-- What `encoding/json` and `strconv` do for the code: the first value of a text, of which
-- `toggle_funcs` is kept as it is written, with the text behind it, whether a further `Decode` finds
-- the end there, the elements of an array, an element as an `int`, which is an error beyond 64 bits,
-- and as a text, `strconv.Atoi`, and the text of a document with these numbers.
pub record SettingsJson : Type 0 where
  pub first : Bytes → Result (Bytes × Bytes)
  pub at_end : Bytes → Bool
  pub elements : Bytes → Result (List Bytes)
  pub int_of : Bytes → Result ℤ
  pub text_of : Bytes → Result Bytes
  pub atoi : Bytes → Result ℤ
  pub write : List ℕ → Result Bytes

module _ (json : SettingsJson) where
  -- An element that is no number is the text of one.
  number_or_text : Bytes → Result ℤ → Result ℤ
  number_or_text raw (ok n) = ok n
  number_or_text raw (Base.err e) = json.text_of raw >>= json.atoi

  -- A number that names no function is passed over.
  mark : ℤ → List Bool → List Bool
  mark (pos n) toggle = if ltb n 29 then set toggle n true else toggle
  mark (negsuc n) toggle = toggle

  -- The loop over the elements.
  read_elements : List Bytes → List Bool → Result (List Bool)
  unfolding number_or_text mark
  read_elements [] toggle = ok toggle
  read_elements (raw ∷ rest) toggle =
      number_or_text raw (json.int_of raw) >>= λ n. read_elements rest (mark n toggle)

  read_toggle : Bytes → Result (List Bool)
  unfolding read_elements
  read_toggle raw =
      if is_empty raw || eq_bytes raw (codes "null")
      then Base.err (message (codes "toggle_funcs must be an array"))
      else (json.elements raw >>= λ values. read_elements values (replicate 29 false))

  read_document : Bytes × Bytes → Result (List Bool)
  unfolding read_toggle
  read_document (raw, rest) =
      if json.at_end rest
      then read_toggle raw
      else Base.err (message (codes "unexpected trailing configuration data"))

  -- An error comes with the default.
  or_default : Result (List Bool) → Settings × Option Error
  or_default (ok toggle) = (record { toggle = toggle }, none)
  or_default (Base.err e) = (default_settings, some e)

  -- `Decode` of a reader of these bytes, of which it reads as many as the limit.
  unfoldable pub decode : Bytes → Settings × Option Error
  unfolding read_document or_default
  decode text = or_default (json.first (take limit text) >>= read_document)

  -- The functions that are on, from this number on.
  enabled : ℕ → List Bool → List ℕ
  enabled n [] = []
  enabled n (true ∷ rest) = n ∷ enabled (suc n) rest
  enabled n (false ∷ rest) = enabled (suc n) rest

  -- `Encode` into a buffer.
  unfoldable pub encode : Settings → Result Bytes
  unfolding enabled
  encode s = json.write (enabled 0 s.toggle)
