-- ===== src/Throttle/Cabs.antt =====
-- throttle/cabs.go: the tabs. The selected cab's live fields stand in the controller itself; the map
-- holds those of the others, and of the selected one an old copy.
pub mod Isolation
use go_dcc_ex_driver.Base.{
  ℕ, Bool, true, false, List, [], ◌∷◌, Option, none, some, if◌then◌else◌, ℤ, pos, eq_ℤ, Bytes,
  codes, Error, message, lookup, insert, contains_key,
}
use go_dcc_ex_driver.Throttle.State.{CabState, CabRuntime, zero_runtime, State, Controller, Action}

-- `c.cabs[cab]`
unfoldable pub runtime_of : List (ℤ × CabRuntime) → ℤ → CabRuntime
runtime_of cabs cab = elim (lookup cab cabs) [ none ↦ zero_runtime | some r ↦ r ]

-- The record that the live fields and the map's copy of the selected cab make together.
unfoldable pub current_cab : Controller → CabRuntime
unfolding runtime_of
current_cab c =
    let r = runtime_of c.cabs c.state.cab in
    record {
      state = record r.state {
        cab = c.state.cab;
        speed = c.state.speed;
        direction = c.state.direction;
        functions = c.state.functions;
        toggle = c.state.toggle;
      };
      pending = c.pending;
      last_speed = c.last_speed;
      last_direction = c.last_direction;
      last_known = c.last_known;
      last_sent = c.last_sent;
      held = r.held;
    }

unfoldable pub store_cab : Controller → Controller
unfolding current_cab
store_cab c = record c { cabs = insert c.state.cab (current_cab c) c.cabs }

unfoldable pub load_cab : ℤ → Controller → Controller
unfolding runtime_of
load_cab cab c =
    let r = runtime_of c.cabs cab in
    record c {
      state = record c.state {
        cab = r.state.cab;
        speed = r.state.speed;
        direction = r.state.direction;
        functions = r.state.functions;
        toggle = r.state.toggle;
      };
      pending = r.pending;
      last_speed = r.last_speed;
      last_direction = r.last_direction;
      last_known = r.last_known;
      last_sent = r.last_sent;
    }

-- The record of one cab of `order`: live for the selected one.
unfoldable pub live_cab : Controller → ℤ → CabRuntime
unfolding current_cab runtime_of
live_cab c cab = if eq_ℤ cab c.state.cab then current_cab c else runtime_of c.cabs cab

unfoldable pub cab_states_of : Controller → List ℤ → List CabState
cab_states_of c [] = []
cab_states_of c (cab ∷ rest) = (live_cab c cab).state ∷ cab_states_of c rest

unfoldable pub cab_states : Controller → List CabState
unfolding cab_states_of live_cab
cab_states c = cab_states_of c c.order

-- A throttle that is gone.
abbrev pub closed_error : Error
closed_error = message (codes "throttle has been closed")

-- Stores the active cab, runs the action on another one, and comes back.
unfoldable pub with_cab : ℤ → Action → Action
unfolding store_cab load_cab
with_cab cab f c =
    let active = c.state.cab in
    let ran = f (load_cab cab (store_cab c)) in
    if contains_key cab c.cabs
    then (load_cab active (store_cab ran.0), ran.1)
    else (c, some closed_error)
