-- ===== src/Protocol/Errors.antt =====
-- dccex/protocol/errors.go, and the texts of the errors that the package formats. `%q` is exact on
-- ASCII; a byte beyond ASCII is copied, as `%q` does for printable runes.
use go_dcc_ex_driver.Base.{
  ℕ, ◌+◌, ◌-◌, ◌/◌, ◌%◌, ◌||◌, [], ◌∷◌, ◌++◌, ltb, ◌==◌, if◌then◌else◌, Bytes, codes, format_ℤ,
  Error, malformed, frame_too_large, truncated, out_of_range, range, not_number, number_range,
  bad_track, current_reply, message, ◌≡◌, refl,
}

hex_digit : ℕ → ℕ
hex_digit n = if ltb n 10 then b'0' + n else b'a' + (n - 10)

quote_byte : ℕ → Bytes
unfolding hex_digit
quote_byte c =
    if c == b'"' || c == b'\\'
    then b'\\' ∷ c ∷ []
    else if c == 7
    then codes "\\a"
    else if c == 8
    then codes "\\b"
    else if c == 12
    then codes "\\f"
    else if c == 10
    then codes "\\n"
    else if c == 13
    then codes "\\r"
    else if c == 9
    then codes "\\t"
    else if c == 11
    then codes "\\v"
    else if ltb c 32 || c == 127
    then codes "\\x" ++ (hex_digit (c / 16) ∷ hex_digit (c % 16) ∷ [])
    else c ∷ []

quote_all : Bytes → Bytes
unfolding quote_byte
quote_all [] = b'"' ∷ []
quote_all (c ∷ s) = quote_byte c ++ quote_all s

unfoldable pub quote : Bytes → Bytes
unfolding quote_all
quote s = b'"' ∷ quote_all s

abbrev range_text : Bytes
range_text = codes "DCC-EX value out of range"

unfoldable pub error_text : Error → Bytes
error_text malformed = codes "malformed DCC-EX message"
error_text frame_too_large = codes "DCC-EX frame exceeds 4096 bytes"
error_text truncated = codes "incomplete DCC-EX frame at end of stream"
error_text out_of_range = range_text
error_text (range field n lo hi) =
    field
    ++ (codes "="
        ++ (format_ℤ n
            ++ (codes " (want "
                ++ (format_ℤ lo ++ (codes ".." ++ (format_ℤ hi ++ (codes "): " ++ range_text)))))))
error_text (not_number field) = field ++ (codes ": malformed DCC-EX message")
error_text (number_range field s) = field ++ (codes "=" ++ (quote s ++ (codes ": " ++ range_text)))
error_text (bad_track track) = codes "track " ++ (quote track ++ (codes ": " ++ range_text))
error_text (current_reply e) = codes "current reply: " ++ error_text e
error_text (message text) = text

bad_track_text :
    error_text (bad_track (codes "A\tB")) ≡ codes "track \"A\\tB\": DCC-EX value out of range"
unfolding error_text quote codes
bad_track_text = refl
