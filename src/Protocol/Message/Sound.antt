-- ===== src/Protocol/Message/Sound.antt =====
-- What `Parse` promises of the events that it returns.
use go_dcc_ex_driver.Base.{
  ◌^◌, ◌<◌, ◌≡◌, refl, subst, ◌≢◌, true, List, [], ◌∷◌, arith, ℤ, pos, negsuc, Between, Bytes,
  codes, Result, ok, err, fields,
}
use go_dcc_ex_driver.Protocol.Number.{number, number_sound_lem}
use go_dcc_ex_driver.Protocol.Message.{
  LocoState, PowerState, unreported, mixed, Event, loco_state, track_power, track_mode,
  current_info, cv_result, address_result, raw_frame, is_output, parse_loco, parse_mode,
  parse_power, parse_current, parse_programming, milliamps, min_int32, max_int32, three_currents,
  parse_address, parse_cv, dispatch, dispatch_fields, body_of, parse,
}

-- The speed byte says what the state shows: the top bit the direction, 1 an emergency stop, n + 1 speed n.
pub record IsLocoState (v : LocoState) : Type 0 where
  pub cab_range : Between (pos 1) v.cab (pos 10293)
  pub reg_range : Between (negsuc 0) v.reg (pos 2147483647)
  pub byte_range : v.speed_byte < 256
  pub mask_range : v.function_mask < 2 ^ 32
  pub direction_range : Between (pos 0) v.direction (pos 1)
  pub speed_range : Between (pos 0) v.speed (pos 126)
  pub stopped : v.emergency ≡ true → v.speed ≡ pos 0

abbrev pub IsReported : PowerState → Type 0
IsReported s = (s ≢ unreported) × (s ≢ mixed)

abbrev pub IsEvent : Event → Type 0
IsEvent (loco_state v) = IsLocoState v
IsEvent (track_power v) = IsReported v.state
IsEvent (track_mode v) = is_output v.track ≡ true
IsEvent (current_info v) =
    Between (negsuc 2147483647) v.current_ma (pos 2147483647)
    × Between (negsuc 2147483647) v.max_ma (pos 2147483647)
    × Between (negsuc 2147483647) v.trip_ma (pos 2147483647)
IsEvent (cv_result v) = Between (pos 1) v.cv (pos 1024) × Between (negsuc 0) v.value (pos 255)
IsEvent (address_result v) = Between (negsuc 0) v.address (pos 10293) × (v.address ≢ pos 0)
IsEvent _ = Unit

abbrev Within : ℤ → ℤ → Result ℤ → Type 0
Within lo hi (ok n) = Between lo n hi
Within lo hi (err e) = Unit

number-Within : (field s : Bytes) (lo hi : ℤ) → Within lo hi (number field s lo hi)
number-Within field s lo hi = bounds (number field s lo hi) refl
  where
    bounds : (m : Result ℤ) → number field s lo hi ≡ m → Within lo hi m
    bounds (ok n) e = let (w, low, high) = number_sound_lem field s lo hi e in (low, high)
    bounds (err x) e = tt

-- A result is an event of its frame, with values in range, or an error.
abbrev Sound : Bytes → Result Event → Type 0
Sound m (ok e) = IsEvent e × (raw_frame e ≡ m)
Sound m (err x) = Unit

parse_loco-Sound : (m : Bytes) (args : List Bytes) → Sound m (parse_loco m args)
unfolding parse_loco
parse_loco-Sound m [] = tt
parse_loco-Sound m (a ∷ []) = tt
parse_loco-Sound m (a ∷ b ∷ []) = tt
parse_loco-Sound m (a ∷ b ∷ c ∷ []) = tt
parse_loco-Sound m (a ∷ b ∷ c ∷ d ∷ e ∷ r) = tt
parse_loco-Sound m (a ∷ b ∷ c ∷ d ∷ []) = ground (
  arith,
  number-Within (codes "cab") a (pos 1) (pos 10293),
  number-Within (codes "reg") b (negsuc 0) (pos 2147483647),
  number-Within (codes "speed byte") c (pos 0) (pos 255),
  number-Within (codes "function mask") d (pos 0) (pos 4294967295),
)

parse_mode-Sound : (m : Bytes) (args : List Bytes) → Sound m (parse_mode m args)
unfolding parse_mode
parse_mode-Sound m [] = tt
parse_mode-Sound m (a ∷ []) = tt
parse_mode-Sound m (a ∷ b ∷ []) = ground arith
parse_mode-Sound m (a ∷ b ∷ c ∷ []) = ground arith
parse_mode-Sound m (a ∷ b ∷ c ∷ d ∷ r) = tt

parse_power-Sound : (m head : Bytes) (args : List Bytes) → Sound m (parse_power m head args)
unfolding parse_power
parse_power-Sound m head [] = ground arith
parse_power-Sound m head (a ∷ []) = ground arith
parse_power-Sound m head (a ∷ b ∷ r) = tt

milliamps-Within : (s : Bytes) → Within (negsuc 2147483647) (pos 2147483647) (milliamps s)
unfolding milliamps
milliamps-Within s = ground (arith, number-Within (codes "current") s min_int32 max_int32)

three_currents-Sound : (m a b c : Bytes) → Sound m (three_currents m a b c)
unfolding three_currents
three_currents-Sound m a b c =
    ground (arith, milliamps-Within a, milliamps-Within b, milliamps-Within c)

parse_current-Sound : (m : Bytes) (args : List Bytes) → Sound m (parse_current m args)
unfolding parse_current
parse_current-Sound m [] = tt
parse_current-Sound m (a ∷ []) = ground (arith, milliamps-Within a)
parse_current-Sound m (a ∷ b ∷ []) = tt
parse_current-Sound m (a ∷ b ∷ c ∷ []) = three_currents-Sound m a b c
parse_current-Sound m (a ∷ b ∷ c ∷ d ∷ []) = tt
parse_current-Sound m (a ∷ b ∷ c ∷ d ∷ e ∷ []) = tt
parse_current-Sound m (a ∷ b ∷ c ∷ d ∷ e ∷ f ∷ []) = tt
parse_current-Sound m (a ∷ b ∷ c ∷ d ∷ e ∷ f ∷ g ∷ []) = tt
parse_current-Sound m (a ∷ b ∷ c ∷ d ∷ e ∷ f ∷ g ∷ h ∷ []) =
    ground (arith, three_currents-Sound m b f h)
parse_current-Sound m (a ∷ b ∷ c ∷ d ∷ e ∷ f ∷ g ∷ h ∷ i ∷ r) = tt

parse_address-Sound : (m head a : Bytes) → Sound m (parse_address m head a)
unfolding parse_address
parse_address-Sound m head a =
    ground (arith, number-Within (codes "address") a (negsuc 0) (pos 10293))

parse_cv-Sound : (m head : Bytes) (args : List Bytes) → Sound m (parse_cv m head args)
unfolding parse_cv
parse_cv-Sound m head [] = tt
parse_cv-Sound m head (a ∷ []) = tt
parse_cv-Sound m head (a ∷ b ∷ c ∷ r) = tt
parse_cv-Sound m head (a ∷ b ∷ []) = ground (
  arith,
  number-Within (codes "cv") a (pos 1) (pos 1024),
  number-Within (codes "value") b (negsuc 0) (pos 255),
)

parse_programming-Sound :
    (m head : Bytes) (args : List Bytes) → Sound m (parse_programming m head args)
unfolding parse_programming
parse_programming-Sound m head [] = parse_cv-Sound m head []
parse_programming-Sound m head (a ∷ []) =
    ground (arith, parse_cv-Sound m head (a ∷ []), parse_address-Sound m head a)
parse_programming-Sound m head (a ∷ b ∷ r) = parse_cv-Sound m head (a ∷ b ∷ r)

dispatch-Sound : (m body head : Bytes) (args : List Bytes) → Sound m (dispatch m body head args)
unfolding dispatch
dispatch-Sound m body head args = ground (
  arith,
  parse_loco-Sound m args,
  parse_mode-Sound m args,
  parse_power-Sound m head args,
  parse_current-Sound m args,
  parse_programming-Sound m head args,
)

dispatch_fields-Sound : (m body : Bytes) (fs : List Bytes) → Sound m (dispatch_fields m body fs)
unfolding dispatch_fields
dispatch_fields-Sound m body [] = tt
dispatch_fields-Sound m body (head ∷ args) = dispatch-Sound m body head args

parse-Sound : (frame : Bytes) → Sound frame (parse frame)
unfolding parse
parse-Sound frame =
    ground (arith, dispatch_fields-Sound frame (body_of frame) (fields (body_of frame)))

-- Whatever bytes `Parse` is given, an event that it returns keeps the frame as its raw text and holds
-- only values in their ranges: a locomotive's address, register, speed, direction and mask, with speed
-- 0 on an emergency stop; a reported power state; an output from A to H; currents of 32 bits; a CV and
-- its value; an address that is not 0.
pub parse_sound :
    (frame : Bytes) {e : Event} → parse frame ≡ ok e → IsEvent e × (raw_frame e ≡ frame)
parse_sound frame {e} h = subst (Sound frame) h (parse-Sound frame)
