-- ===== src/Lib.antt =====
-- Go_DCC_Ex_Driver: a throttle for DCC-EX model railway command stations. This library models the
-- parts of the driver that decide what reaches the layout, and proves what they promise.
--
-- The program and the files. Bytes from a connection are cut into frames (dccex/protocol/frame.go,
-- Protocol/Frame), parsed into events (dccex/protocol/message.go, Protocol/Message, with the number
-- checks of dccex/protocol/validations.go in Protocol/Number) and handed to the controller
-- (throttle/controller.go, throttle/cabs.go, throttle/power.go, throttle/cv.go), which keeps a tab for
-- each locomotive and sends commands (dccex/protocol/command.go, Protocol/Command).
-- dccex/capabilities is the catalogue of optional station features and the state machine that asks
-- for it (Capabilities/Catalog, Capabilities/Discovery; Discovery/Answers says without
-- the machine which answer ends a query).
--   Base: bytes, decimal printing, strings.Fields and strings.TrimSpace, UTF-8 validation, integers,
--     maps, results and errors.
--   Protocol/Frame: Framer.Feed is feed, one byte is feed_byte. Stream and Extract hold its theorems.
--   Protocol/Number: inRange is in_range, number is number.
--   Protocol/Command: the Encode functions under their names; Wire and Requests hold their theorems.
--   Protocol/Message: Parse is parse, its switch dispatch; Shape, Sound and Replies hold theorems.
--   Protocol/Decoder: Decoder of dccex/protocol/api.go; Delivery holds its theorem.
--   Throttle/State: the records State, Controller, CabState, cabRuntime. Throttle/Link: Log, Detach,
--     send, command. Throttle/Cabs: storeCab, loadCab, cabStates, WithCab. Throttle/Drive: speed,
--     timer, direction, stops. Throttle/Functions and Throttle/Programming: buttons, CVs, raw commands.
--     Throttle/Tabs: Attach, selection, adding, removing and replacing tabs. Throttle/Power: track
--     power. Throttle/Receive: Receive. Throttle/Preferences: throttle/preferences.go.
--     Throttle/Session: the queue, Connect, applyAction and flushPreferences of
--     throttle/session.go; Throttle/Session/Loop: its run, with what other goroutines do meanwhile as
--     happenings in any order. Children of these and Throttle/Safety hold their theorems.
--   Client: dccex/client/client.go. SendContext is begin_send, write_round for a round of its goroutine,
--     and take_result, time_out or give_up for the case of its last select; closeWithCause is
--     close_with_cause. Client/Reading cuts read where it waits, and Client/Machine has the steps of
--     all goroutines. The other children hold theorems.
--   Config/DisplayName, Config/Throttles: config/display_name.go and the validation of
--     config/throttles.go.
--   Config/Codec: DecodeThrottles and EncodeThrottles of config/throttles.go. Config/Settings: Decode
--     and Encode of config/config.go.
--   Stations: stations/profile.go, stations/store.go and, but for telemetry, stations/preferences.go. The
--     database, JSON, addresses and the classes of letters are arguments; what the theorems need of
--     them stands in records that end in Laws.
--   Examples: tests at concrete inputs.
--
-- The model. A Go string is its bytes. A Go int is an integer: the code compares and prints such
-- values and makes no sum of them that could leave 64 bits. A uint64 attempt number wraps; a uint32 mask
-- and a byte are reduced where the code converts. A method on *Controller is a function from the
-- controller to the new controller and an optional error. A time is a number of nanoseconds, the zero
-- time of lastSent is none. Maps are association lists. A Sender is a parameter: its answer to a
-- command may depend on all that passed before; the field trace of the model's controller records
-- what the senders were handed, and no code reads it. Loops are structural recursions over the bytes,
-- the fields or the tabs. There is fuel in two places: decimal printing has n + 1 rounds for n, and the
-- goroutine that writes a command as many rounds as it is given, of which two more than the command has
-- bytes are proved to be enough. The client and the session's loop are state machines: the goroutines of
-- the client are the constructors of a step relation, and the loop runs on a list of happenings.
--
-- Left out: telemetry and its contexts, which change no state of the controller, but for the calls of
-- finish in applyAction, which the field finished of a session records and no code reads; the text that
-- strconv.Quote gives to bytes beyond ASCII in an error message, which are copied; the files in which
-- settings are kept and their command line, the user interface and the build tools.
pub mod Base
pub mod Capabilities
pub mod Client
pub mod Config
pub mod Examples
pub mod Protocol
pub mod Stations
pub mod Throttle
