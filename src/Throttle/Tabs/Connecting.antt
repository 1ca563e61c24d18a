-- ===== src/Throttle/Tabs/Connecting.antt =====
-- Connecting and disconnecting keep the tabs well-formed.
use go_dcc_ex_driver.Base.{
  is_in, Distinct, refl, false, List, [], ◌∷◌, arith, ℕ, ℤ, pos, eq_ℤ_iff, Bool, true, Bytes,
  lookup, Option, none, some, Error, Result, ok, codes, if◌then◌else◌,
}
use go_dcc_ex_driver.Base
use go_dcc_ex_driver.Protocol.Command.{encode_status, encode_track_query, encode_loco_request}
use go_dcc_ex_driver.Throttle.State.{CabState, Connection, Sender, Controller, Action, ◌>>◌}
use go_dcc_ex_driver.Throttle.Link.{log, detach, detach_cab, send}
use go_dcc_ex_driver.Throttle.Cabs.{cab_states}
use go_dcc_ex_driver.Throttle.Session.{where_of, remember_connection, take_opened, connect}
use go_dcc_ex_driver.Throttle.Tabs.{text_of, request_all, linked, attach}
use go_dcc_ex_driver.Throttle.Tabs.Invariant.{IsWellFormed, map-Tabs}
use go_dcc_ex_driver.Throttle.Tabs.Writes.{Keeps, then-Keeps, send-Keeps}

pub detach-IsWellFormed :
    (reason : Bytes) (c : Controller) → IsWellFormed c → IsWellFormed (detach reason c)
unfolding detach
detach-IsWellFormed reason c t = map-Tabs t detach_cab (λ r. unfold detach_cab in refl)

linked-IsWellFormed :
    (s : Sender) (text : Bytes) (c : Controller) → IsWellFormed c → IsWellFormed (linked s text c)
unfolding linked log detach
linked-IsWellFormed s text c t = map-Tabs t detach_cab (λ r. unfold detach_cab in refl)

request_all-Keeps : (ss : List CabState) → Keeps (request_all ss)
unfolding request_all
request_all-Keeps [] = λ c t. t
request_all-Keeps (s ∷ ss) =
    let cmd = text_of (encode_loco_request s.cab) in
    then-Keeps (send cmd false) (request_all ss) (send-Keeps cmd) (request_all-Keeps ss)

request_tabs-Keeps : Keeps (λ c. request_all (cab_states c) c)
request_tabs-Keeps c t = request_all-Keeps (cab_states c) c t

pub attach-IsWellFormed :
    (s : Sender) (text : Bytes) (c : Controller) → IsWellFormed c → IsWellFormed (attach s text c).0
unfolding attach
attach-IsWellFormed s text c t =
    let requests : Action = λ c'. request_all (cab_states c') c' in
    then-Keeps (send encode_track_query false) (send encode_status false >> requests)
      (send-Keeps encode_track_query)
      (then-Keeps (send encode_status false) requests (send-Keeps encode_status) request_tabs-Keeps)
      (linked s text c) (linked-IsWellFormed s text c t)

chosen-IsWellFormed :
    (b : Bool) (x y : Controller × Option Error)
    → IsWellFormed x.0
    → IsWellFormed y.0
    → IsWellFormed (if b then x else y).0
chosen-IsWellFormed true x y t u = t
chosen-IsWellFormed false x y t u = u

-- What the opener's answer leads to.
take_opened-IsWellFormed :
    (o : Connection) (opened : Result Sender) (cancelled : Option Error) (c : Controller)
    → IsWellFormed c
    → IsWellFormed (take_opened o opened cancelled c).0
unfolding take_opened
take_opened-IsWellFormed o (Base.err e) cancelled c t = t
take_opened-IsWellFormed o (ok s) (some e) c t = t
take_opened-IsWellFormed o (ok s) none c t =
    let r = attach s (where_of o) c in
    let u = attach-IsWellFormed s (where_of o) c t in
    unfold remember_connection in
    chosen-IsWellFormed r.0.state.connected
      (record r.0 { state = record r.0.state { active_connection = o } }, r.1) r u u

pub connect-IsWellFormed :
    (o : Connection) (opened : Result Sender) (cancelled : Option Error) (c : Controller)
    → IsWellFormed c
    → IsWellFormed (connect o opened cancelled c).0
unfolding connect
connect-IsWellFormed o opened cancelled c t =
    chosen-IsWellFormed c.state.connected (detach (codes "Disconnected") c, none)
      (take_opened o opened cancelled c) (detach-IsWellFormed (codes "Disconnected") c t)
      (take_opened-IsWellFormed o opened cancelled c t)
