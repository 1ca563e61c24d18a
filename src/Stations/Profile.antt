-- ===== src/Stations/Profile.antt =====
-- stations/profile.go: connection profiles and their normal form.
pub mod Valid
use go_dcc_ex_driver.Base.{
  ℕ, ◌-◌, Bool, true, false, not, ◌&&◌, ◌||◌, List, [], ◌∷◌, Option, none, some, ltb, ◌==◌,
  if◌then◌else◌, is_empty, length, take, drop, ℤ, pos, ltb_ℤ, Bytes, codes, eq_bytes, has_prefix,
  valid_utf8, trim_space, Error, message, Result, ok, ◌>>=◌, ◌>>◌, fail_if,
}
use go_dcc_ex_driver.Base
use go_dcc_ex_driver.Config.DisplayName.{runes, is_control}

pub record Profile : Type 0 where
  pub name : Bytes
  pub mode : Bytes
  pub host : Bytes
  pub port : ℤ
  pub device : Bytes
  pub baud : ℤ

-- What the code calls of its libraries: `netip.ParseAddr` with the text of the address and whether it
-- is of version 6, `unicode.IsLetter` and `unicode.IsDigit`, and `strings.ToLower`.
pub record Platform : Type 0 where
  pub parse_addr : Bytes → Option (Bytes × Bool)
  pub is_letter : ℕ → Bool
  pub is_digit : ℕ → Bool
  pub to_lower : Bytes → Bytes

-- `strings.HasSuffix(host, "]")`
ends_bracket : Bytes → Bool
ends_bracket [] = false
ends_bracket (c ∷ []) = c == b']'
ends_bracket (c ∷ d ∷ s) = ends_bracket (d ∷ s)

unfoldable pub is_bracketed : Bytes → Bool
unfolding ends_bracket
is_bracketed host = has_prefix host (b'[' ∷ []) && ends_bracket host

-- `host[1 : len(host)-1]`
abbrev pub inner : Bytes → Bytes
inner host = take (length host - 2) (drop 1 host)

abbrev pub is_host_rune : Platform → ℕ → Bool
is_host_rune lib ch = lib.is_letter ch || lib.is_digit ch || ch == b'.' || ch == b'-' || ch == b'_'

-- The loop over the runes of a host name.
unfoldable pub check_host_runes : Platform → List ℕ → Result (Unit {0})
check_host_runes lib [] = ok tt
check_host_runes lib (ch ∷ rest) =
    let checked = check_host_runes lib rest in
    if is_host_rune lib ch
    then checked
    else Base.err (message (codes "host must not include a URL, port, path, or whitespace"))

unfoldable pub check_host : Platform → Bytes → Result Bytes
unfolding check_host_runes
check_host lib host =
    if is_empty host || ltb 253 (length host) || not (valid_utf8 host)
    then Base.err (message (codes "host must be a hostname or IP address"))
    else (check_host_runes lib (runes host) >> ok host)

-- A host without brackets, or whose brackets hold no address.
unfoldable pub plain_host : Platform → Option (Bytes × Bool) → Bytes → Result Bytes
unfolding check_host
plain_host lib none host = check_host lib host
plain_host lib (some addr) host = ok addr.0

unfoldable pub bracketed_host : Platform → Option (Bytes × Bool) → Bytes → Result Bytes
unfolding plain_host
bracketed_host lib (some (text, true)) host = ok text
bracketed_host lib (some (text, false)) host = plain_host lib (lib.parse_addr host) host
bracketed_host lib none host = plain_host lib (lib.parse_addr host) host

unfoldable pub normalize_host : Platform → Bytes → Result Bytes
unfolding is_bracketed plain_host bracketed_host
normalize_host lib text =
    let host = trim_space text in
    if is_bracketed host
    then bracketed_host lib (lib.parse_addr (inner host)) host
    else plain_host lib (lib.parse_addr host) host

-- The loops that look for control characters.
unfoldable pub has_control : List ℕ → Bool
has_control [] = false
has_control (ch ∷ rest) = is_control ch || has_control rest

unfoldable pub check_name : Bytes → Result (Unit {0})
unfolding has_control
check_name name =
    if is_empty name || not (valid_utf8 name) || ltb 80 (length (runes name))
    then Base.err (message (codes "station name must contain 1-80 characters"))
    else fail_if (has_control (runes name))
        (message (codes "station name contains control characters"))

abbrev pub tcp_text : Bytes
tcp_text = 84 ∷ 67 ∷ 80 ∷ []

abbrev pub serial_text : Bytes
serial_text = 83 ∷ 101 ∷ 114 ∷ 105 ∷ 97 ∷ 108 ∷ []

-- `case "TCP"`
unfoldable pub normalize_tcp : Platform → Profile → Result Profile
unfolding normalize_host
normalize_tcp lib p = normalize_host lib p.host >>= λ host.
    fail_if (ltb_ℤ p.port (pos 1) || ltb_ℤ (pos 65535) p.port)
      (message (codes "TCP port must be 1-65535"))
    >> ok (record p { host = host; device = []; baud = pos 0 })

unfoldable pub check_device : Bytes → ℤ → Result (Unit {0})
unfolding has_control
check_device device baud =
    if is_empty device
      || ltb 1024 (length device)
      || not (valid_utf8 device)
      || ltb_ℤ baud (pos 1)
      || ltb_ℤ (pos 4000000) baud
    then Base.err (message (codes "serial device and baud rate 1-4000000 are required"))
    else fail_if (has_control (runes device))
        (message (codes "serial device contains control characters"))

-- `case "Serial"`
unfoldable pub normalize_serial : Profile → Result Profile
unfolding check_device
normalize_serial p =
    let device = trim_space p.device in
    check_device device p.baud >> ok (record p { host = []; port = pos 0; device = device })

-- The profile that `Normalize` returns with an error is not used.
unfoldable pub normalize : Platform → Profile → Result Profile
unfolding check_name normalize_tcp normalize_serial
normalize lib p =
    let named = record p { name = trim_space p.name } in
    check_name named.name
    >> (if eq_bytes p.mode tcp_text
        then normalize_tcp lib named
        else if eq_bytes p.mode serial_text
        then normalize_serial named
        else Base.err (message (codes "connection mode must be TCP or Serial")))
