-- ===== src/Protocol/Command.antt =====
-- dccex/protocol/command.go: the commands that the driver sends. `fmt.Sprintf` of a letter and
-- numbers is `command`.
pub mod Wire
pub mod Requests
use go_dcc_ex_driver.Base.{
  ℕ, Bool, true, false, List, [], ◌∷◌, ◌++◌, map, ℤ, pos, negsuc, Bytes, codes, format_ℤ, spaced,
  eq_bytes, if◌then◌else◌, Error, bad_track, Result, ok, err, ◌>>=◌, ◌>>◌, ◌||◌,
}
use go_dcc_ex_driver.Protocol.Number.{in_range}

-- A word, and further words behind a space each, in brackets.
unfoldable pub bracket : Bytes → List Bytes → Bytes
bracket head args = b'<' ∷ ((head ++ spaced args) ++ b'>' ∷ [])

-- `fmt.Sprintf("<h %d … %d>", …)`
unfoldable pub command : ℕ → List ℤ → Bytes
command h ns = bracket (h ∷ []) (map format_ℤ ns)

unfoldable pub encode_status : Bytes
encode_status = command b's' []

unfoldable pub encode_track_query : Bytes
encode_track_query = command b'=' []

unfoldable pub encode_emergency_stop : Bytes
encode_emergency_stop = command b'!' []

unfoldable pub encode_current_query : Bytes
encode_current_query = command b'c' []

unfoldable pub encode_read_address : Bytes
encode_read_address = command b'R' []

-- The values of type `Track`.
abbrev pub all_tracks : Bytes
all_tracks = codes "ALL"

abbrev pub main_track : Bytes
main_track = codes "MAIN"

abbrev pub prog_track : Bytes
prog_track = codes "PROG"

-- The digit that switches power.
abbrev power_op : Bool → Bytes
power_op on = (if on then b'1' else b'0') ∷ []

unfoldable pub encode_power : Bool → Bytes → Result Bytes
encode_power on track =
    if eq_bytes track all_tracks
    then ok (bracket (power_op on) [])
    else if eq_bytes track main_track || eq_bytes track prog_track
    then ok (bracket (power_op on) (track ∷ []))
    else err (bad_track track)

-- The ranges that the commands share.
unfoldable pub check_cab : ℤ → Result (Unit {0})
check_cab cab = in_range (codes "cab") cab (pos 1) (pos 10293)

unfoldable pub check_cv : ℤ → Result (Unit {0})
check_cv cv = in_range (codes "cv") cv (pos 1) (pos 1024)

unfoldable pub check_value : ℤ → Result (Unit {0})
check_value value = in_range (codes "value") value (pos 0) (pos 255)

unfoldable pub encode_loco_request : ℤ → Result Bytes
encode_loco_request cab = do check_cab cab; ok (command b't' (cab ∷ []))

unfoldable pub encode_throttle : ℤ → ℤ → ℤ → Result Bytes
encode_throttle cab speed dir = do
  check_cab cab
  in_range (codes "speed") speed (negsuc 0) (pos 126)
  in_range (codes "direction") dir (pos 0) (pos 1)
  ok (command b't' (cab ∷ speed ∷ dir ∷ []))

unfoldable pub encode_function : ℤ → ℤ → ℤ → Result Bytes
encode_function cab function state = do
  check_cab cab
  in_range (codes "function") function (pos 0) (pos 68)
  in_range (codes "state") state (pos 0) (pos 1)
  ok (command b'F' (cab ∷ function ∷ state ∷ []))

unfoldable pub encode_write_address : ℤ → Result Bytes
encode_write_address cab = do check_cab cab; ok (command b'W' (cab ∷ []))

unfoldable pub encode_read_cv : ℤ → Result Bytes
encode_read_cv cv = do check_cv cv; ok (command b'R' (cv ∷ []))

unfoldable pub encode_write_cv : ℤ → ℤ → Result Bytes
encode_write_cv cv value = do check_cv cv; check_value value; ok (command b'W' (cv ∷ value ∷ []))

unfoldable pub encode_program_on_main : ℤ → ℤ → ℤ → Result Bytes
encode_program_on_main cab cv value = do
  check_cab cab
  check_cv cv
  check_value value
  ok (command b'w' (cab ∷ cv ∷ value ∷ []))
