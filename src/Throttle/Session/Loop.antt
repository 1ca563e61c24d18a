-- ===== src/Throttle/Session/Loop.antt =====
-- throttle/session.go: the loop of `run`, with the channels that others use meanwhile.
pub mod Queue
pub mod Ending
pub mod Service
pub mod Current
pub mod Actions
pub mod Tabs
use native.Mathlib.Decide.{ℕ_discrete}
use go_dcc_ex_driver.Base.{
  ◌≡◌, ℕ, suc, Bool, true, false, List, [], ◌∷◌, ◌++◌, Option, none, some, if◌then◌else◌, Bytes,
  codes, Error,
}
use go_dcc_ex_driver.Protocol.Errors.{error_text}
use go_dcc_ex_driver.Protocol.Message.{Event}
use go_dcc_ex_driver.Throttle.State.{err, new_controller, Controller, Action}
use go_dcc_ex_driver.Throttle.Link.{log, detach, close}
use go_dcc_ex_driver.Throttle.Drive.{tick, poll}
use go_dcc_ex_driver.Config.Throttles.{ThrottleSettings}
use go_dcc_ex_driver.Throttle.Preferences.{restore_tabs}
use go_dcc_ex_driver.Throttle.Receive.{receive}
use go_dcc_ex_driver.Throttle.Session.{
  View, view, SessionAction, Session, close_session, enqueue, publish, apply_action,
  flush_preferences,
}

-- `reflect.DeepEqual` of two snapshots.
View-discrete : Discrete View
View-discrete = hlevel ℕ_discrete

-- What the `select` of the loop receives: an action, a tick of either timer, and from the client the
-- end of its events, a lost connection, a frame that is no event, or an event.
pub data Occasion : Type 0 where
  acts polls ends : Occasion
  ticks : ℕ → Occasion
  breaks garbles : Error → Occasion
  hears : Event → Occasion

-- The variables of `run`. `shown` is the snapshot that a view took last from `updates`, and `over` says
-- that `run` has returned.
pub record Loop : Type 0 where
  pub controller : Controller
  pub session : Session
  pub previous : View
  pub shown : Option View
  pub over : Bool

unfoldable pub new_loop : Controller → Session → Loop
unfolding publish view
new_loop c s = record {
  controller = c;
  session = publish (view c) s;
  previous = view c;
  shown = none;
  over = false;
}

-- The answers of the storage that a session is given, and its layout at the start.
pub record TabPersistence : Type 0 where
  pub initial : ThrottleSettings
  pub save : List ThrottleSettings → ThrottleSettings → Option Error

abbrev pub new_session : Option (List ThrottleSettings → ThrottleSettings → Option Error) → Session
new_session save = record {
  closing = false;
  actions = [];
  updates = none;
  save_tabs = save;
  saves = [];
  finished = [];
}

-- A layout that cannot be restored is logged, and the session saves nothing.
unfoldable pub with_layout : TabPersistence → Controller × Option Error → Loop
unfolding new_loop
with_layout tabs (c, none) = new_loop c (new_session (some tabs.save))
with_layout tabs (c, some e) =
    new_loop (log err (codes "Saved throttles unavailable: " ++ error_text e) c) (new_session none)

-- `NewObservedSession`
unfoldable pub start : List Bool → Option TabPersistence → Loop
unfolding new_loop with_layout
start toggle none = new_loop (new_controller toggle) (new_session none)
start toggle (some tabs) = with_layout tabs (restore_tabs tabs.initial (new_controller toggle))

-- The action at the head of the queue.
take_action : List SessionAction → Loop → Loop
unfolding apply_action
take_action [] l = l
take_action (a ∷ rest) l =
    let r = apply_action a l.controller (record l.session { actions = rest }) in
    record l { controller = r.0; session = r.1 }

-- A timer's work is left out once the context is cancelled.
unfoldable pub unless_closing : Action → Loop → Loop
unless_closing work l = record l {
  controller = if l.session.closing then l.controller else (work l.controller).0;
}

lose : Bytes → Controller → Controller
lose reason c = let gone = detach reason c in log err gone.state.status gone

-- The cases of the `select`.
unfoldable pub handle : Occasion → Loop → Loop
unfolding take_action unless_closing lose
handle acts l = take_action l.session.actions l
handle (ticks now) l = unless_closing (tick now) l
handle polls l = unless_closing poll l
handle ends l = record l {
  controller = detach (codes "Disconnected: connection closed") l.controller;
}
handle (breaks e) l = record l {
  controller = lose (codes "Disconnected: " ++ error_text e) l.controller;
}
handle (garbles e) l = record l { controller = log err (error_text e) l.controller }
handle (hears e) l = record l { controller = receive (some e) l.controller }

publish_unless : {next previous : View} → Dec (next ≡ previous) → Loop → Loop
unfolding publish
publish_unless (yes same) l = l
publish_unless {next} (no changed) l = record l {
  session = publish next l.session;
  previous = next;
}

-- The end of a round: a changed snapshot is published.
unfoldable pub publish_changed : Loop → Loop
unfolding View-discrete publish_unless
publish_changed l = publish_unless (View-discrete (view l.controller) l.previous) l

-- The deferred calls.
unfoldable pub finish : Loop → Loop
unfolding flush_preferences
finish l =
    let r = flush_preferences l.controller l.session in
    record l { controller = (close r.0).0; session = r.1; previous = view r.0; over = true }

-- A round of the loop, given `s.ctx.Err() != nil`.
unfoldable pub round : Bool → Occasion → Loop → Loop
unfolding handle publish_changed finish
round true o l = finish l
round false o l = publish_changed (handle o l)

-- The same, when the context is cancelled behind that check.
unfoldable pub raced : Bool → Occasion → Loop → Loop
unfolding handle publish_changed finish close_session
raced true o l = finish l
raced false o l = publish_changed (handle o (record l { session = close_session l.session }))

-- What happens to a session: a round of `run`, one during which it is closed, a call of `Post` or of a
-- preference, a call of `Close`, and a view that takes a snapshot.
pub data Happening : Type 0 where
  rounds races : Occasion → Happening
  asks : SessionAction → Happening
  closes looks : Happening

-- The buffer of `updates` is emptied.
take_update : Option View → Loop → Loop
take_update none l = l
take_update (some v) l = record l { session = record l.session { updates = none }; shown = some v }

unless_over : Bool → Loop → Loop → Loop
unless_over true l next = l
unless_over false l next = next

unfoldable pub happen : Happening → Loop → Loop
unfolding round raced close_session enqueue take_update unless_over
happen (rounds o) l = unless_over l.over l (round l.session.closing o l)
happen (races o) l = unless_over l.over l (raced l.session.closing o l)
happen (asks a) l = record l { session = (enqueue a l.session).0 }
happen closes l = record l { session = close_session l.session }
happen looks l = take_update l.session.updates l

unfoldable pub happen_all : List Happening → Loop → Loop
unfolding happen
happen_all [] l = l
happen_all (h ∷ hs) l = happen_all hs (happen h l)
