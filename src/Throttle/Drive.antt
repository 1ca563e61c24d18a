-- ===== src/Throttle/Drive.antt =====
-- throttle/controller.go: speed, direction, stop and emergency stop, and throttle/cabs.go: the timer
-- that sends queued speeds.
pub mod Pace
use go_dcc_ex_driver.Base.{
  ℕ, ◌+◌, Bool, true, false, not, ◌&&◌, ◌||◌, List, [], ◌∷◌, Option, none, some, ltb, if◌then◌else◌,
  ℤ, pos, ◌-ℤ◌, ltb_ℤ, eq_ℤ, Bytes, codes, Error, message, Result, ok, map_values,
}
use go_dcc_ex_driver.Base
use go_dcc_ex_driver.Protocol.Command.{encode_throttle, encode_emergency_stop, encode_current_query}
use go_dcc_ex_driver.Throttle.State.{
  CabState, CabRuntime, State, Controller, Action, ◌>>◌, modify, done, fail, fail_when,
}
use go_dcc_ex_driver.Throttle.Link.{send}
use go_dcc_ex_driver.Throttle.Cabs.{cab_states, with_cab}

abbrev pub is_some {ℓ} : {A : Type ℓ} → Option A → Bool
is_some none = false
is_some (some a) = true

-- The test of an encoder's error alone.
abbrev pub check_encoded : Result Bytes → Action
check_encoded (ok cmd) = done
check_encoded (Base.err e) = fail e

-- The state behind `c.state.Speed = speed`: the speed waits for the timer if there is a connection.
unfoldable pub queue_speed : ℤ → Controller → Controller
queue_speed speed c = record c {
  state = record c.state { speed = speed };
  pending = if is_some c.sender then some speed else none;
}

unfoldable pub move_speed : ℤ → Action
unfolding queue_speed
move_speed speed c =
    (do
      check_encoded (encode_throttle c.state.cab speed c.state.direction)
      fail_when (ltb_ℤ speed (pos 0)) (message (codes "slider speed must be 0-126"))
      modify (queue_speed speed))
      c

-- What a transmitted command leaves to compare the next one with.
unfoldable pub remember : ℤ → ℤ → ℕ → Controller → Controller
remember speed dir now c = record c {
  last_speed = speed;
  last_direction = dir;
  last_known = true;
  last_sent = some now;
}

abbrev pub send_encoded : Result Bytes → Action
send_encoded (ok cmd) = send cmd false
send_encoded (Base.err e) = fail e

unfoldable pub transmit : ℤ → ℤ → ℕ → Action
unfolding remember
transmit speed dir now c =
    (do send_encoded (encode_throttle c.state.cab speed dir); modify (remember speed dir now)) c

-- 80 milliseconds
abbrev pub interval : ℕ
interval = 80000000

unfoldable pub too_soon : Option ℕ → ℕ → Bool
too_soon none now = false
too_soon (some last) now = ltb now (last + interval)

unfoldable pub unchanged : Controller → ℤ → Bool
unchanged c speed =
    c.last_known && eq_ℤ speed c.last_speed && eq_ℤ c.state.direction c.last_direction

abbrev pub forget : Controller → Controller
forget c = record c { pending = none }

-- `tickCurrent` behind its first test: a speed is pending and there is a connection.
unfoldable pub tick_pending : ℤ → ℕ → Action
unfolding unchanged too_soon
tick_pending speed now c =
    if unchanged c speed
    then (forget c, none)
    else if too_soon c.last_sent now
    then (c, none)
    else transmit speed c.state.direction now (forget c)

unfoldable pub tick_queued : Option ℤ → Bool → ℕ → Action
unfolding tick_pending
tick_queued (some speed) true now = tick_pending speed now
tick_queued (some speed) false now = done
tick_queued none linked now = done

unfoldable pub tick_current : ℕ → Action
unfolding tick_queued
tick_current now c = tick_queued c.pending (is_some c.sender) now c

unfoldable pub tick_cabs : ℕ → List CabState → Action
tick_cabs now [] = done
tick_cabs now (s ∷ rest) = with_cab s.cab (tick_current now) >> tick_cabs now rest

unfoldable pub tick : ℕ → Action
unfolding tick_cabs
tick now c = tick_cabs now (cab_states c) c

abbrev pub is_direction : ℤ → Bool
is_direction dir = eq_ℤ dir (pos 0) || eq_ℤ dir (pos 1)

unfoldable pub turn : ℤ → Controller → Controller
turn dir c = record c { state = record c.state { direction = dir } }

unfoldable pub set_direction : ℤ → ℕ → Action
unfolding turn
set_direction dir now c =
    if not (is_direction dir)
    then (c, some (message (codes "direction must be 0 (reverse) or 1 (forward)")))
    else if eq_ℤ dir c.state.direction
    then (c, none)
    else (transmit c.state.speed dir now >> modify (turn dir)) c

unfoldable pub direction : ℕ → Action
direction now c = set_direction (pos 1 -ℤ c.state.direction) now c

unfoldable pub halt : Controller → Controller
halt c = record c { state = record c.state { speed = pos 0 } }

unfoldable pub stop : ℕ → Action
unfolding halt
stop now c = (transmit (pos 0) c.state.direction now >> modify halt) (forget c)

-- Queued movement of every cab is dropped, whether or not the command reaches the station.
unfoldable pub drop_pending : CabRuntime → CabRuntime
drop_pending r = record r { pending = none }

unfoldable pub stop_cab : CabRuntime → CabRuntime
stop_cab r = record r {
  state = record r.state { speed = pos 0 };
  pending = none;
  last_speed = pos 0;
}

unfoldable pub drop_all : Controller → Controller
drop_all c = record c { pending = none; cabs = map_values drop_pending c.cabs }

unfoldable pub stop_all : Controller → Controller
stop_all c = record c {
  state = record c.state { speed = pos 0 };
  cabs = map_values stop_cab c.cabs;
  last_speed = pos 0;
  last_direction = c.state.direction;
  last_known = true;
}

unfoldable pub emergency : Action
unfolding drop_all stop_all
emergency c = (send encode_emergency_stop false >> modify stop_all) (drop_all c)

unfoldable pub set_poll : Bool → Controller → Controller
set_poll enabled c = record c { state = record c.state { poll = enabled } }

unfoldable pub poll : Action
poll c = if c.state.poll && is_some c.sender then send encode_current_query true c else (c, none)
