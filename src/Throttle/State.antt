-- ===== src/Throttle/State.antt =====
-- The state of the controller: `State` and `Controller` of throttle/controller.go, `CabState` and
-- `cabRuntime` of throttle/cabs.go, `Connection` of throttle/session.go. The telemetry manager and
-- the contexts that it traces with change no state and are left out.
use go_dcc_ex_driver.Base.{
  ◌≡◌, inl, inr, Option-cases, ℕ, Bool, true, false, List, [], ◌∷◌, Option, none, some, replicate,
  ℤ, pos, Bytes, codes, Error,
}
use go_dcc_ex_driver.Protocol.Message.{PowerState, unreported}
use go_dcc_ex_driver.Capabilities.Discovery.{Discovery, new_discovery}

pub record CabState : Type 0 where
  pub cab : ℤ
  pub speed : ℤ
  pub direction : ℤ
  pub functions : List Bool  -- [29]bool
  pub name : Bytes
  pub labels : List Bytes  -- [29]string
  pub toggle : List Bool  -- [29]bool
  pub hidden : List Bool  -- [29]bool

-- A nil `pending` is `none`, and so is the zero time of `lastSent`; other times are nanoseconds.
pub record CabRuntime : Type 0 where
  pub state : CabState
  pub pending : Option ℤ
  pub last_speed : ℤ
  pub last_direction : ℤ
  pub last_known : Bool
  pub last_sent : Option ℕ
  pub held : List Bool  -- [29]bool

-- The zero values of the arrays.
abbrev pub no_bools : List Bool
no_bools = replicate 29 false

abbrev pub no_texts : List Bytes
no_texts = replicate 29 []

-- `CabState{Cab: cab, Direction: 1, Toggle: toggle}`
unfoldable pub new_cab : ℤ → List Bool → CabState
new_cab cab toggle = record {
  cab = cab;
  speed = pos 0;
  direction = pos 1;
  functions = no_bools;
  name = [];
  labels = no_texts;
  toggle = toggle;
  hidden = no_bools;
}

-- `cabRuntime{state: s}`
unfoldable pub new_runtime : CabState → CabRuntime
new_runtime s = record {
  state = s;
  pending = none;
  last_speed = pos 0;
  last_direction = pos 0;
  last_known = false;
  last_sent = none;
  held = no_bools;
}

-- What a map read of a missing key gives.
unfoldable pub zero_runtime : CabRuntime
unfolding new_cab new_runtime
zero_runtime = new_runtime (record (new_cab (pos 0) no_bools) { direction = pos 0 })

pub record Connection : Type 0 where
  pub serial : Bool
  pub host : Bytes
  pub port : ℤ
  pub device : Bytes
  pub baud : ℤ

abbrev pub no_connection : Connection
no_connection = record { serial = false; host = []; port = pos 0; device = []; baud = pos 0 }

pub data Kind : Type 0 where
  info tx rx err : Kind

pub record LogEntry : Type 0 where
  pub kind : Kind
  pub text : Bytes

-- `Discovery` and `Throttles` are filled in by `Snapshot` only, and are no part of the kept state.
pub record State : Type 0 where
  pub connected : Bool
  pub active_connection : Connection
  pub status : Bytes
  pub cab : ℤ
  pub speed : ℤ
  pub direction : ℤ
  pub functions : List Bool
  pub toggle : List Bool
  pub power : Bytes
  pub main_power : PowerState
  pub prog_power : PowerState
  pub overload : Bool
  pub current_ma : ℤ
  pub max_ma : ℤ
  pub trip_ma : ℤ
  pub has_current : Bool
  pub has_limits : Bool
  pub poll : Bool
  pub program_result : Bytes
  pub program_address : Bytes
  pub program_value : Bytes
  pub cv29 : ℕ
  pub cv29_known : Bool
  pub logs : List LogEntry

-- What reaches the connection, the latest first.
pub data Wire : Type 0 where
  sent failed : Bytes → Wire
  closed : Wire

-- A `Sender`: its answer to a command, given what has passed so far. `none` is a nil error.
pub record Sender : Type 0 where
  pub answer : List Wire → Bytes → Option Error

-- `trace` records the calls of senders; the code keeps no such field.
pub record Controller : Type 0 where
  pub discovery : Discovery
  pub cabs : List (ℤ × CabRuntime)
  pub order : List ℤ
  pub state : State
  pub sender : Option Sender
  pub pending : Option ℤ
  pub last_speed : ℤ
  pub last_direction : ℤ
  pub last_known : Bool
  pub last_sent : Option ℕ
  pub track_modes : List Bytes  -- [8]string
  pub track_powers : List PowerState  -- [8]PowerState
  pub default_toggle : List Bool
  pub trace : List Wire

abbrev new_state : List Bool → State
new_state toggle = record {
  connected = false;
  active_connection = no_connection;
  status = codes "Disconnected";
  cab = pos 3;
  speed = pos 0;
  direction = pos 1;
  functions = no_bools;
  toggle = toggle;
  power = codes "power: unknown";
  main_power = unreported;
  prog_power = unreported;
  overload = false;
  current_ma = pos 0;
  max_ma = pos 0;
  trip_ma = pos 0;
  has_current = false;
  has_limits = false;
  poll = true;
  program_result = codes "result: --";
  program_address = [];
  program_value = [];
  cv29 = 0;
  cv29_known = false;
  logs = [];
}

-- `New`
unfoldable pub new_controller : List Bool → Controller
unfolding new_cab new_runtime
new_controller toggle = record {
  discovery = new_discovery;
  cabs = (pos 3, new_runtime (new_cab (pos 3) toggle)) ∷ [];
  order = pos 3 ∷ [];
  state = new_state toggle;
  sender = none;
  pending = none;
  last_speed = pos 0;
  last_direction = pos 0;
  last_known = false;
  last_sent = none;
  track_modes = replicate 8 [];
  track_powers = replicate 8 unreported;
  default_toggle = toggle;
  trace = [];
}

-- A method that returns an error: the new controller, and `none` for a nil error.
abbrev pub Action : Type 0
Action = Controller → Controller × Option Error

-- `if err := m(); err != nil { return err }`
infixl 5 ◌>>◌
abbrev pub ◌>>◌ : Action → Action → Action
◌>>◌ m k c = let r = m c in elim r.1 [ none ↦ k r.0 | some e ↦ (r.0, some e) ]

abbrev pub modify : (Controller → Controller) → Action
modify f c = (f c, none)

abbrev pub done : Action
done c = (c, none)

abbrev pub fail : Error → Action
fail e c = (c, some e)

-- `if bad { return e }`
abbrev pub fail_when : Bool → Error → Action
fail_when true e c = (c, some e)
fail_when false e c = (c, none)

pub then_ok : (m k : Action) (c : Controller) → (m c).1 ≡ none → (m >> k) c ≡ k (m c).0
then_ok m k c e = rw (e, ◌>>◌)

pub then_err :
    (m k : Action) (c : Controller) (e : Error) → (m c).1 ≡ some e → (m >> k) c ≡ ((m c).0, some e)
then_err m k c e h = rw (h, ◌>>◌)

-- A property of what both ways leave.
pub then_cases {ℓ} :
    (P : Controller × Option Error → Type ℓ) (m k : Action) (c : Controller)
    → ((m c).1 ≡ none → P (k (m c).0))
    → ((e : Error) → (m c).1 ≡ some e → P ((m c).0, some e))
    → P ((m >> k) c)
then_cases P m k c went stuck = elim (Option-cases (m c).1) [
  | inl h ↦ rw (then_ok m k c h) (went h)
  | inr (e, h) ↦ rw (then_err m k c e h) (stuck e h)
]
