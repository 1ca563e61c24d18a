-- ===== src/Throttle/Receive.antt =====
-- throttle/controller.go: `Receive`, and `receiveLoco` of throttle/cabs.go.
pub mod Loco
use go_dcc_ex_driver.Base.{
  ℕ, zero, suc, ◌+◌, ◌/◌, ◌%◌, ◌^◌, Bool, true, false, not, ◌&&◌, ◌||◌, List, [], ◌∷◌, ◌++◌, Option,
  none, some, ◌==◌, if◌then◌else◌, set, replicate, ℤ, pos, negsuc, ◌-◌, pos_part, eq_ℤ, Bytes,
  codes, format_ℤ, contains_key,
}
use go_dcc_ex_driver.Protocol.Message.{
  LocoState, TrackPower, TrackMode, CurrentInfo, CvResult, AddressResult, Operation, read, write,
  PowerState, unreported, off, on, overload, mixed, Event, loco_state, track_power, track_mode,
  current_info, cv_result, address_result, version_info, command_rejected, unknown, raw_frame,
  success, is_output,
}
use go_dcc_ex_driver.Throttle.State.{rx, State, Controller, Action}
use go_dcc_ex_driver.Throttle.Link.{log}
use go_dcc_ex_driver.Throttle.Cabs.{with_cab}
use go_dcc_ex_driver.Throttle.Power.{output_index, update_track_power, receive_power}
use go_dcc_ex_driver.Throttle.Programming.{cv_description}

-- Bit `n` and those above it, for as many functions as there are.
unfoldable pub mask_bits : ℕ → ℕ → ℕ → List Bool
mask_bits mask n zero = []
mask_bits mask n (suc rest) = (mask / 2 ^ n % 2 == 1) ∷ mask_bits mask (n + 1) rest

unfoldable pub receive_loco : LocoState → Controller → Controller
unfolding mask_bits
receive_loco v c = record c {
  state = record c.state {
    speed = v.speed;
    direction = v.direction;
    functions = mask_bits v.function_mask 0 29;
  };
  pending = none;
  last_speed = v.speed;
  last_direction = v.direction;
  last_known = true;
}

-- A state of the selected cab, of another open one, or of one that is not open.
unfoldable pub receive_state : LocoState → Controller → Controller
receive_state v c =
    if eq_ℤ v.cab c.state.cab
    then receive_loco v c
    else if contains_key v.cab c.cabs
    then (with_cab v.cab (λ c'. (receive_loco v c', none)) c).0
    else c

unfoldable pub power_text : PowerState → Bytes
power_text unreported = []
power_text off = codes "OFF"
power_text on = codes "ON"
power_text overload = codes "OVERLOAD"
power_text mixed = codes "MIXED"

unfoldable pub receive_mode : TrackMode → Controller → Controller
receive_mode v c =
    if is_output v.track
    then update_track_power (record c {
      track_modes = set c.track_modes (output_index v.track) v.mode;
      state = record c.state { main_power = unreported; prog_power = unreported };
    })
    else c

unfoldable pub receive_current : CurrentInfo → State → State
receive_current v s =
    let drawn = record s { current_ma = v.current_ma; has_current = true } in
    if v.has_limits
    then record drawn { max_ma = v.max_ma; trip_ma = v.trip_ma; has_limits = true }
    else drawn

operation_text : Operation → Bytes
operation_text read = codes "read"
operation_text write = codes "write"

-- The result and, of a read, the value.
cv_shown : Operation → CvResult → State → State
cv_shown read v s = record s {
  program_result = cv_description v.cv ++ (codes " = " ++ format_ℤ v.value);
  program_value = format_ℤ v.value;
}
cv_shown write v s = record s {
  program_result = cv_description v.cv ++ (codes " written: " ++ format_ℤ v.value);
}

-- `byte(v.Value)`
byte_of : ℤ → ℕ
byte_of (pos n) = n % 256
byte_of (negsuc n) = 255 - n % 256

unfoldable pub receive_cv : CvResult → State → State
unfolding cv_shown operation_text byte_of
receive_cv v s =
    let shown = cv_shown v.operation v s in
    if not (success v.value)
    then record s {
      program_result =
          cv_description v.cv ++ (codes " " ++ (operation_text v.operation ++ codes " FAILED"));
    }
    else if eq_ℤ v.cv (pos 29)
    then record shown { cv29 = byte_of v.value; cv29_known = true }
    else shown

address_shown : Operation → AddressResult → State → State
address_shown read v s = record s {
  program_result = codes "loco address = " ++ format_ℤ v.address;
  program_address = format_ℤ v.address;
}
address_shown write v s = record s {
  program_result = codes "address written: " ++ format_ℤ v.address;
}

unfoldable pub receive_address : AddressResult → State → State
unfolding address_shown operation_text
receive_address v s =
    if not (success v.address)
    then record s {
      program_result = codes "address " ++ (operation_text v.operation ++ codes " FAILED");
    }
    else address_shown v.operation v s

-- The `switch` on the type of the event.
unfoldable pub receive_event : Event → Controller → Controller
unfolding receive_state power_text receive_mode receive_current receive_cv receive_address
receive_event (loco_state v) c = receive_state v c
receive_event (track_power v) c =
    let text = codes "power: " ++ (v.track ++ (codes " " ++ power_text v.state)) in
    receive_power v (record c { state = record c.state { power = text } })
receive_event (track_mode v) c = receive_mode v c
receive_event (current_info v) c = record c { state = receive_current v c.state }
receive_event (version_info raw text) c = record c { state = record c.state { status = text } }
receive_event (cv_result v) c = record c { state = receive_cv v c.state }
receive_event (address_result v) c = record c { state = receive_address v c.state }
receive_event (command_rejected raw) c = c
receive_event (unknown raw) c = c

unfoldable pub is_current : Event → Bool
is_current (current_info v) = true
is_current _ = false

-- `none` is a nil event.
unfoldable pub receive : Option Event → Controller → Controller
unfolding is_current
receive none c = c
receive (some e) c =
    if not c.state.connected
    then c
    else receive_event e (
        if not (is_current e) || not c.state.poll then log rx (codes "<< " ++ raw_frame e) c else c)
