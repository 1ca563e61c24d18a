-- ===== src/Throttle/Session.antt =====
-- throttle/session.go: the queue of actions, their application and the flush at shutdown. Loop has the
-- loop that receives them.
pub mod Shutdown
pub mod Storage
pub mod Loop
use go_dcc_ex_driver.Base.{
  ℕ, ◌+◌, Bool, true, false, not, ◌&&◌, ◌||◌, List, [], ◌∷◌, ◌++◌, Option, none, some, ltb,
  if◌then◌else◌, length, ℤ, eq_ℤ, Bytes, codes, eq_bytes, Error, message, Result, ok,
}
use go_dcc_ex_driver.Base
use go_dcc_ex_driver.Protocol.Errors.{error_text}
use go_dcc_ex_driver.Capabilities.Discovery
use go_dcc_ex_driver.Config.Throttles.{ThrottleTab, ThrottleSettings}
use go_dcc_ex_driver.Throttle.State.{CabState, State, Connection, Sender, err, Controller, Action}
use go_dcc_ex_driver.Throttle.Link.{log, detach}
use go_dcc_ex_driver.Throttle.Cabs.{cab_states}
use go_dcc_ex_driver.Throttle.Tabs.{attach}
use go_dcc_ex_driver.Throttle.Preferences.{
  tab_settings, rename_cab, set_function_label, set_function_hidden, set_function_toggle,
  flip_function_toggle,
}

-- What `Snapshot` copies out of the controller.
pub record View : Type 0 where
  pub state : State
  pub discovery : Discovery.Snapshot
  pub throttles : List CabState

unfoldable pub view : Controller → View
view c = record {
  state = c.state;
  discovery = Discovery.snapshot c.discovery;
  throttles = cab_states c;
}

-- The actions that are queued with `preference: true`, by the method that queues them.
pub data Preference : Type 0 where
  renames : ℤ → Bytes → Preference
  labels : ℤ → ℤ → Bytes → Preference
  toggles : ℤ → ℤ → Bool → Preference
  flips : ℤ → ℤ → Preference
  hides : ℤ → ℤ → Bool → Preference

unfoldable pub apply : Preference → Action
apply (renames cab name) = rename_cab cab name
apply (labels cab n label) = set_function_label cab n label
apply (toggles cab n on) = set_function_toggle cab n on
apply (flips cab n) = flip_function_toggle cab n
apply (hides cab n hidden) = set_function_hidden cab n hidden

-- A local preference, or any action that `Post` queues.
pub data SessionAction : Type 0 where
  preference : Preference → SessionAction
  posted : Action → SessionAction

-- `closing` says that the context is cancelled; the channels are the queue `actions` of at most 128
-- and the one snapshot `updates`. `save_tabs` is the storage's answer, given what it was handed so
-- far, which `saves` records, the latest first. `finished` records the actions whose `finish`
-- `applyAction` calls, with the error that it is given, the latest last.
pub record Session : Type 0 where
  pub closing : Bool
  pub actions : List SessionAction
  pub updates : Option View
  pub save_tabs : Option (List ThrottleSettings → ThrottleSettings → Option Error)
  pub saves : List ThrottleSettings
  pub finished : List (SessionAction × Option Error)

-- `Close`
unfoldable pub close_session : Session → Session
close_session s = record s { closing = true }

unfoldable pub enqueue : SessionAction → Session → Session × Option Error
enqueue action s =
    if s.closing
    then (s, some (message (codes "application is closing")))
    else if ltb (length s.actions) 128
    then (record s { actions = s.actions ++ action ∷ [] }, none)
    else (s, some (message (codes "controller is busy; command was not queued")))

-- A snapshot that nobody has taken is replaced by the latest one.
unfoldable pub publish : View → Session → Session
publish v s = record s { updates = some v }

abbrev same_bool : Bool → Bool → Bool
same_bool true b = b
same_bool false b = not b

same_list {ℓ} : {A : Type ℓ} → (A → A → Bool) → List A → List A → Bool
same_list eq [] [] = true
same_list eq [] (y ∷ ys) = false
same_list eq (x ∷ xs) [] = false
same_list eq (x ∷ xs) (y ∷ ys) = eq x y && same_list eq xs ys

same_toggle : Option (List Bool) → Option (List Bool) → Bool
unfolding same_list
same_toggle none none = true
same_toggle (some x) (some y) = same_list same_bool x y
same_toggle none (some y) = false
same_toggle (some x) none = false

same_tab : ThrottleTab → ThrottleTab → Bool
unfolding same_list same_toggle
same_tab t u =
    eq_ℤ t.address u.address
    && eq_bytes t.name u.name
    && same_list eq_bytes t.labels u.labels
    && same_toggle t.toggle u.toggle
    && same_list same_bool t.hidden u.hidden

-- `reflect.DeepEqual` of two layouts.
unfoldable pub same_settings : ThrottleSettings → ThrottleSettings → Bool
unfolding same_list same_tab
same_settings s t =
    eq_ℤ s.version t.version && same_list same_tab s.tabs t.tabs && eq_ℤ s.selected t.selected

unfoldable pub log_failed : Bytes → Option Error → Controller → Controller
log_failed prefix none c = c
log_failed prefix (some e) c = log err (prefix ++ error_text e) c

-- A changed layout is handed to the storage, if there is one.
unfoldable pub save_changed : ThrottleSettings → Controller → Session → Controller × Session
unfolding log_failed same_settings
save_changed before c s =
    let after = tab_settings c in
    if same_settings before after then (c, s) else elim s.save_tabs [
      | none ↦ (c, s)
      | some save ↦ (
        log_failed (codes "Could not save throttle tabs: ") (save s.saves after) c,
        record s { saves = after ∷ s.saves },
      )
    ]

-- What the storage answers to the change, if it is asked.
unfoldable pub save_error : ThrottleSettings → ThrottleSettings → Session → Option Error
unfolding same_settings
save_error before after s =
    if same_settings before after
    then none
    else elim s.save_tabs [ none ↦ none | some save ↦ save s.saves after ]

abbrev pub later_error : Option Error → Option Error → Option Error
later_error e none = e
later_error e (some failed) = some failed

-- The deferred `action.finish(actionErr)`.
unfoldable pub finish_action : SessionAction → Option Error → Session → Session
finish_action a e s = record s { finished = s.finished ++ (a, e) ∷ [] }

-- `applyAction` of the action `a` once it is known that it runs, as `action`.
unfoldable pub run_action : SessionAction → Action → Controller → Session → Controller × Session
unfolding save_changed log_failed save_error finish_action
run_action a action c s =
    let r = action c in
    let d = log_failed [] r.1 r.0 in
    let e = later_error r.1 (save_error (tab_settings c) (tab_settings d) s) in
    let kept = save_changed (tab_settings c) d s in (kept.0, finish_action a e kept.1)

-- `context.Canceled`
abbrev pub cancelled_context : Error
cancelled_context = message (codes "context canceled")

-- While the session closes, posted actions are cancelled and preferences run without a connection.
unfoldable pub apply_action : SessionAction → Controller → Session → Controller × Session
unfolding run_action apply finish_action
apply_action (posted action) c s =
    if s.closing
    then (c, finish_action (posted action) (some cancelled_context) s)
    else run_action (posted action) action c s
apply_action (preference p) c s =
    run_action (preference p) (apply p) (if s.closing then detach (codes "Disconnected") c else c) s

-- The loop that receives from the queue, given what it holds, until it is empty.
unfoldable pub drain : List SessionAction → Controller → Session → Controller × Session
unfolding apply_action
drain [] c s = (c, s)
drain (a ∷ rest) c s = let r = apply_action a c (record s { actions = rest }) in drain rest r.0 r.1

unfoldable pub flush_preferences : Controller → Session → Controller × Session
unfolding close_session drain publish view
flush_preferences c s =
    let closing = close_session s in
    let r = drain closing.actions (detach (codes "Disconnected") c) closing in
    (r.0, publish (view r.0) r.1)

-- What `o` is called in the status.
unfoldable pub where_of : Connection → Bytes
where_of o = if o.serial then o.device else o.host

-- A connection that is made is the active one, also if a later request failed but left it open.
unfoldable pub remember_connection :
    Connection → Controller × Option Error → Controller × Option Error
remember_connection o r =
    if r.0.state.connected
    then (record r.0 { state = record r.0.state { active_connection = o } }, r.1)
    else r

-- The opener's answer: an error, or a connection, which is used unless the session closes meanwhile.
unfoldable pub take_opened : Connection → Result Sender → Option Error → Action
unfolding where_of remember_connection
take_opened o (Base.err e) cancelled c = (c, some e)
take_opened o (ok s) (some e) c = (c, some e)
take_opened o (ok s) none c = remember_connection o (attach s (where_of o) c)

-- The action that `Connect` queues. The opener's answer and the context's error are parameters.
unfoldable pub connect : Connection → Result Sender → Option Error → Action
unfolding take_opened
connect o opened cancelled c =
    if c.state.connected
    then (detach (codes "Disconnected") c, none)
    else take_opened o opened cancelled c
