-- ===== src/Stations/Profile/Valid.antt =====
-- stations/profile.go: what a normal profile looks like.
use go_dcc_ex_driver.Base.{
  ◌≡◌, refl, sym, ◌≤◌, ◌⊎◌, inl, inr, ◌↔◌, ℕ, Bool, true, false, List, [], ◌∷◌, Option, none, some,
  arith, All, ltb, not, ◌||◌, ◌&&◌, if◌then◌else◌, is_empty, length, ℤ, pos, ltb_ℤ, Between, Bytes,
  codes, eq_bytes, eq_bytes_sound, valid_utf8, trim_space, Error, message, Result, ok, both_ok,
  else_ok, bind_ok, either_ok, err_ok, ok-injective, Result-cases, ◌>>=◌, ◌>>◌, fail_if, Bool-cases,
  Option-cases, ap, subst, ◌∙◌,
}
use go_dcc_ex_driver.Base
use go_dcc_ex_driver.Config.DisplayName.{runes, is_control}
use go_dcc_ex_driver.Stations.Profile.{
  Profile, Platform, is_host_rune, check_host_runes, check_host, plain_host, bracketed_host,
  normalize_host, is_bracketed, inner, has_control, check_name, check_device, tcp_text, serial_text,
  normalize_tcp, normalize_serial, normalize,
}

abbrev pub IsFreeOfControls : List ℕ → Type 0
IsFreeOfControls rs = All (λ r. is_control r ≡ false) rs

-- A text of so many bytes at most, in UTF-8 and without control characters.
abbrev pub IsText : Bytes → Type 0
IsText s = (is_empty s ≡ false) × (valid_utf8 s ≡ true) × IsFreeOfControls (runes s)

-- A host is what the library prints of an address, or a name of letters, digits, dots, dashes and
-- underscores.
abbrev pub IsHost : Platform → Bytes → Type 0
IsHost lib h =
    ((text : Bytes) × (six : Bool) × (lib.parse_addr text ≡ some (h, six)))
    ⊎ ((is_empty h ≡ false)
        × (length h ≤ 253)
        × (valid_utf8 h ≡ true)
        × All (λ r. is_host_rune lib r ≡ true) (runes h))

abbrev pub IsTcp : Platform → Profile → Type 0
IsTcp lib p =
    (p.mode ≡ tcp_text)
    × IsHost lib p.host
    × Between (pos 1) p.port (pos 65535)
    × (p.device ≡ [])
    × (p.baud ≡ pos 0)

abbrev pub IsSerial : Profile → Type 0
IsSerial p =
    (p.mode ≡ serial_text)
    × IsText p.device
    × (length p.device ≤ 1024)
    × Between (pos 1) p.baud (pos 4000000)
    × (p.host ≡ [])
    × (p.port ≡ pos 0)

-- A profile of one of the two modes, with nothing left of the other.
abbrev pub IsNormal : Platform → Profile → Type 0
IsNormal lib p = IsText p.name × (length (runes p.name) ≤ 80) × (IsTcp lib p ⊎ IsSerial p)

has_control_iff : (rs : List ℕ) → (has_control rs ≡ false) ↔ IsFreeOfControls rs
unfolding has_control
has_control_iff [] = ground arith
has_control_iff (r ∷ rs) = ground (arith, has_control_iff rs)

check_name_sound : (s : Bytes) → check_name s ≡ ok tt → IsText s × (length (runes s) ≤ 80)
unfolding check_name
check_name_sound s h = ground (arith, has_control_iff (runes s))

check_device_sound :
    (s : Bytes) (baud : ℤ)
    → check_device s baud ≡ ok tt
    → IsText s × (length s ≤ 1024) × Between (pos 1) baud (pos 4000000)
unfolding check_device
check_device_sound s baud h = ground (arith, has_control_iff (runes s))

check_host_runes_sound :
    (lib : Platform) (rs : List ℕ)
    → check_host_runes lib rs ≡ ok tt
    → All (λ r. is_host_rune lib r ≡ true) rs
unfolding check_host_runes
check_host_runes_sound lib [] h = tt
check_host_runes_sound lib (r ∷ rs) h = ground (arith, check_host_runes_sound lib rs)

good_port :
    (port : ℤ)
    → fail_if
        (ltb_ℤ port (pos 1) || ltb_ℤ (pos 65535) port)
        (message (codes "TCP port must be 1-65535"))
      ≡ ok tt
    → Between (pos 1) port (pos 65535)
good_port port h = ground arith

good_host :
    (h : Bytes)
    → (is_empty h || ltb 253 (length h) || not (valid_utf8 h)) ≡ false
    → (is_empty h ≡ false) × (length h ≤ 253) × (valid_utf8 h ≡ true)
good_host h p = ground arith

check_host_sound : (lib : Platform) (host h : Bytes) → check_host lib host ≡ ok h → IsHost lib h
unfolding check_host
check_host_sound lib host h p =
    let (good, checked) = else_ok _ _ (check_host_runes lib (runes host) >> ok host) h p in
    let (fine, same) = both_ok (check_host_runes lib (runes host)) (ok host) h checked in
    let (a, b, c) = good_host host good in
    subst (IsHost lib) (ok-injective host h same)
      (inr (a, b, c, check_host_runes_sound lib (runes host) fine))

plain_host_sound :
    (lib : Platform) (host h : Bytes)
    → plain_host lib (lib.parse_addr host) host ≡ ok h
    → IsHost lib h
unfolding plain_host
plain_host_sound lib host h p = elim (Option-cases (lib.parse_addr host)) [
  | inl none_is ↦ check_host_sound lib host h (subst (λ o. plain_host lib o host ≡ ok h) none_is p)
  | inr (addr, is) ↦ inl (
    host,
    addr.1,
    is
        ∙ ap (λ t. some (t, addr.1))
            (ok-injective addr.0 h (subst (λ o. plain_host lib o host ≡ ok h) is p)),
  )
]

bracketed_host_sound :
    (lib : Platform) (o : Option (Bytes × Bool)) (host h : Bytes)
    → lib.parse_addr (inner host) ≡ o
    → bracketed_host lib o host ≡ ok h
    → IsHost lib h
unfolding bracketed_host
bracketed_host_sound lib none host h q p = plain_host_sound lib host h p
bracketed_host_sound lib (some (text, false)) host h q p = plain_host_sound lib host h p
bracketed_host_sound lib (some (text, true)) host h q p =
    inl (inner host, true, q ∙ ap (λ t. some (t, true)) (ok-injective text h p))

normalize_host_sound :
    (lib : Platform) (text h : Bytes) → normalize_host lib text ≡ ok h → IsHost lib h
unfolding normalize_host
normalize_host_sound lib text h p =
    either_ok (is_bracketed (trim_space text)) _ _ h p
      (λ b. bracketed_host_sound lib _ (trim_space text) h refl)
      (plain_host_sound lib (trim_space text) h)

normalize_tcp_sound :
    (lib : Platform) (p q : Profile)
    → p.mode ≡ tcp_text
    → normalize_tcp lib p ≡ ok q
    → (q.name ≡ p.name) × IsTcp lib q
unfolding normalize_tcp
normalize_tcp_sound lib p q mode h =
    let (host, is, rest) = bind_ok (normalize_host lib p.host) _ q h in
    let (port, same) = both_ok _ (ok _) q rest in
    subst (λ r. (r.name ≡ p.name) × IsTcp lib r) (ok-injective _ q same)
      (refl, (mode, normalize_host_sound lib p.host host is, good_port p.port port, refl, refl))

normalize_serial_sound :
    (lib : Platform) (p q : Profile)
    → p.mode ≡ serial_text
    → normalize_serial p ≡ ok q
    → (q.name ≡ p.name) × IsSerial q
unfolding normalize_serial
normalize_serial_sound lib p q mode h =
    let (device, same) = both_ok (check_device (trim_space p.device) p.baud) (ok _) q h in
    let (text, short, baud) = check_device_sound (trim_space p.device) p.baud device in
    subst (λ r. (r.name ≡ p.name) × IsSerial r) (ok-injective _ q same)
      (refl, (mode, text, short, baud, refl, refl))

mode_sound :
    (lib : Platform) (p q : Profile)
    → (if eq_bytes p.mode tcp_text
        then normalize_tcp lib p
        else if eq_bytes p.mode serial_text
        then normalize_serial p
        else Base.err (message (codes "connection mode must be TCP or Serial")))
      ≡ ok q
    → (q.name ≡ p.name) × (IsTcp lib q ⊎ IsSerial q)
mode_sound lib p q h =
    either_ok (eq_bytes p.mode tcp_text) _ _ q h
      (λ is r.
        let (name, tcp) = normalize_tcp_sound lib p q (eq_bytes_sound p.mode tcp_text is) r in
        (name, inl tcp))
      (λ rest.
        either_ok (eq_bytes p.mode serial_text) _ _ q rest
          (λ is r.
            let (name, serial) =
              normalize_serial_sound lib p q (eq_bytes_sound p.mode serial_text is) r in
            (name, inr serial))
          (err_ok _ q))

-- A profile that `Normalize` returns without an error has the trimmed name of the given one, of 1 to
-- 80 runes in UTF-8 without control characters, and is of one of the two modes: TCP with an address or
-- a host name and a port of 1 to 65535, and no device, or serial with a device of at most 1024 bytes
-- without control characters and a baud rate of 1 to 4000000, and no host.
pub normalize-IsNormal :
    (lib : Platform) (p q : Profile)
    → normalize lib p ≡ ok q
    → (q.name ≡ trim_space p.name) × IsNormal lib q
unfolding normalize
normalize-IsNormal lib p q h =
    let named = record p { name = trim_space p.name } in
    let (checked, rest) = both_ok (check_name named.name) _ q h in
    let (text, few) = check_name_sound named.name checked in
    let (same, mode) = mode_sound lib named q rest in
    (same, (subst IsText (sym same) text, subst (λ n. length (runes n) ≤ 80) (sym same) few, mode))
