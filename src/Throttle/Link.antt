-- ===== src/Throttle/Link.antt =====
-- throttle/controller.go: the log, the connection and the commands that pass it.
use go_dcc_ex_driver.Base.{
  ℕ, ◌-◌, Bool, true, false, List, [], ◌∷◌, ◌++◌, Option, none, some, ltb, if◌then◌else◌, length,
  take, drop, replicate, ℤ, pos, Bytes, codes, Error, message, Result, ok, map_values,
}
use go_dcc_ex_driver.Base
use go_dcc_ex_driver.Protocol.Message.{unreported}
use go_dcc_ex_driver.Protocol.Errors.{error_text}
use go_dcc_ex_driver.Capabilities.Discovery.{reset}
use go_dcc_ex_driver.Throttle.State.{
  CabRuntime, no_bools, no_connection, Kind, tx, err, LogEntry, State, Wire, sent, failed, closed,
  Sender, Controller, Action,
}

-- A text of more than 8192 bytes is cut, and ends in an ellipsis.
unfoldable pub clip : Bytes → Bytes
clip text = if ltb 8192 (length text) then take 8192 text ++ (0xe2 ∷ 0x80 ∷ 0xa6 ∷ []) else text

-- The last 500 entries.
unfoldable pub newest : List LogEntry → List LogEntry
newest logs = if ltb 500 (length logs) then drop (length logs - 500) logs else logs

unfoldable pub log : Kind → Bytes → Controller → Controller
log kind text c = record c { state = record c.state { logs = newest (c.state.logs ++ entry ∷ []) } }
  where
    entry : LogEntry
    entry = record { kind = kind; text = clip text }

-- `Detach`, for one of the cabs.
unfoldable pub detach_cab : CabRuntime → CabRuntime
detach_cab r = record r { pending = none; last_known = false; held = no_bools }

detach_state : Bytes → State → State
detach_state reason s = record s {
  connected = false;
  active_connection = no_connection;
  status = reason;
  power = codes "power: unknown";
  main_power = unreported;
  prog_power = unreported;
  overload = false;
  has_current = false;
  has_limits = false;
  current_ma = pos 0;
  max_ma = pos 0;
  trip_ma = pos 0;
}

close_sender : Option Sender → List Wire → List Wire
close_sender none trace = trace
close_sender (some s) trace = closed ∷ trace

unfoldable pub detach : Bytes → Controller → Controller
unfolding detach_state close_sender
detach reason c = record c {
  discovery = reset c.discovery;
  sender = none;
  trace = close_sender c.sender c.trace;
  state = detach_state reason c.state;
  pending = none;
  last_known = false;
  cabs = map_values detach_cab c.cabs;
  track_modes = replicate 8 [];
  track_powers = replicate 8 unreported;
}

-- `Close`
unfoldable pub close : Action
close c = (detach (codes "Disconnected") c, none)

abbrev log_unless : Bool → Kind → Bytes → Controller → Controller
log_unless quiet kind text c = if quiet then c else log kind text c

-- The sender's answer to a command.
unfoldable pub answered : Option Error → Bytes → Bool → Action
answered none cmd quiet c =
    (log_unless quiet tx (codes ">> " ++ cmd) (record c { trace = sent cmd ∷ c.trace }), none)
answered (some e) cmd quiet c =
    let gone =
      detach (codes "Send failed: " ++ error_text e) (record c { trace = failed cmd ∷ c.trace }) in
    (log err gone.state.status gone, some e)

unfoldable pub send_to : Option Sender → Bytes → Bool → Action
unfolding answered
send_to none cmd quiet c =
    let e = message (codes "not connected") in (log_unless quiet err (error_text e) c, some e)
send_to (some s) cmd quiet c = answered (s.answer c.trace cmd) cmd quiet c

unfoldable pub send : Bytes → Bool → Action
unfolding send_to
send cmd quiet c = send_to c.sender cmd quiet c

unfoldable pub command : Result Bytes → Action
command (ok cmd) c = send cmd false c
command (Base.err e) c = (log err (error_text e) c, some e)
