-- ===== src/Throttle/Tabs.antt =====
-- throttle/controller.go: `Attach` and the selection of a cab; throttle/cabs.go: opening, focusing,
-- closing and reassigning tabs.
pub mod Keys
pub mod Closing
pub mod Histories
pub mod Connecting
pub mod Steady
pub mod Driving
pub mod Events
pub mod Writes
pub mod Selecting
pub mod Invariant
use go_dcc_ex_driver.Base.{
  ℕ, Bool, true, false, not, ◌&&◌, ◌||◌, List, [], ◌∷◌, ◌++◌, Option, none, some, ◌==◌,
  if◌then◌else◌, length, ℤ, pos, eq_ℤ, Bytes, codes, format_ℤ, Error, message, Result, ok, lookup,
  insert, delete, contains_key,
}
use go_dcc_ex_driver.Base
use go_dcc_ex_driver.Protocol.Command.{encode_loco_request, encode_status, encode_track_query}
use go_dcc_ex_driver.Throttle.State.{
  CabState, CabRuntime, new_cab, new_runtime, info, Sender, Controller, Action, ◌>>◌, modify, done,
  fail_when,
}
use go_dcc_ex_driver.Throttle.Link.{log, detach, send}
use go_dcc_ex_driver.Throttle.Cabs.{runtime_of, store_cab, load_cab, cab_states, closed_error}
use go_dcc_ex_driver.Throttle.Drive.{is_some, check_encoded}

-- `cmd, _ := …`: an error leaves the empty command.
text_of : Result Bytes → Bytes
text_of (ok cmd) = cmd
text_of (Base.err e) = []

request_all : List CabState → Action
unfolding text_of
request_all [] = done
request_all (s ∷ rest) = send (text_of (encode_loco_request s.cab)) false >> request_all rest

-- The state of a new connection, before its first command.
linked : Sender → Bytes → Controller → Controller
linked s description c =
    let idle = detach (codes "Disconnected") c in
    let status = codes "Connected to " ++ description in
    log info status (record idle {
      sender = some s;
      state = record idle.state { connected = true; status = status };
      pending = none;
      last_known = false;
    })

unfoldable pub attach : Sender → Bytes → Action
unfolding linked request_all
attach s description c =
    (do
      send encode_track_query false
      send encode_status false
      (λ c'. request_all (cab_states c') c'))
      (linked s description c)

-- `if _, ok := c.cabs[cab]; !ok { … }`
pub open_cab : ℤ → Controller → Controller
open_cab cab c = if contains_key cab c.cabs then c else record c {
  cabs = insert cab (new_runtime (new_cab cab c.default_toggle)) c.cabs;
  order = c.order ++ cab ∷ [];
}

-- The moves of `selectCab` between two cabs.
unfoldable pub switch_cab : ℤ → Bool → Controller → Controller
unfolding open_cab
switch_cab cab preserve_pending c =
    let kept = if preserve_pending then c else record c { pending = none } in
    log info (codes "loco " ++ (format_ℤ cab ++ codes " selected"))
      (load_cab cab (open_cab cab (store_cab kept)))

select_encoded : Result Bytes → ℤ → Bool → Action
unfolding switch_cab
select_encoded (Base.err e) cab preserve_pending c = (c, some e)
select_encoded (ok cmd) cab preserve_pending c =
    let c' = switch_cab cab preserve_pending c in
    if eq_ℤ cab c.state.cab
    then (c, none)
    else if is_some c.sender
    then send cmd false c'
    else (c', none)

unfoldable pub select : ℤ → Bool → Action
unfolding select_encoded
select cab preserve_pending = select_encoded (encode_loco_request cab) cab preserve_pending

unfoldable pub select_cab : ℤ → Action
select_cab cab = select cab false

unfoldable pub focus_cab : ℤ → Action
focus_cab cab c =
    if not (contains_key cab c.cabs) then (c, some closed_error) else select cab true c

abbrev pub already_open : Error
already_open = message (codes "a throttle for that address is already open")

unfoldable pub add_cab : ℤ → Action
unfolding open_cab
add_cab cab c =
    if contains_key cab c.cabs
    then (c, some already_open)
    else (do check_encoded (encode_loco_request cab); modify (open_cab cab); focus_cab cab) c

-- A cab that moves, or that has a queued speed.
unfoldable pub is_moving : CabRuntime → Bool
is_moving r = not (eq_ℤ r.state.speed (pos 0)) || is_some r.pending

unfoldable pub without : ℤ → List ℤ → List ℤ
without cab [] = []
without cab (k ∷ ks) = if eq_ℤ k cab then without cab ks else k ∷ without cab ks

-- The first of the tabs that are left becomes the selected one.
load_first : List CabState → Controller → Controller
load_first [] c = c
load_first (s ∷ rest) c = load_cab s.cab c

unfoldable pub drop_cab : ℤ → Controller → Controller
unfolding without load_first
drop_cab cab c =
    let c' = record c { cabs = delete cab c.cabs; order = without cab c.order } in
    if eq_ℤ c.state.cab cab then load_first (cab_states c') c' else c'

unfoldable pub remove_cab : ℤ → Action
unfolding drop_cab is_moving
remove_cab cab c =
    let stored = store_cab c in
    if not (contains_key cab stored.cabs)
    then (stored, some closed_error)
    else if length stored.cabs == 1
    then (stored, some (message (codes "keep at least one throttle open")))
    else if is_moving (runtime_of stored.cabs cab)
    then (
      stored,
      some (message (codes "stop this locomotive before closing or reassigning its throttle")),
    )
    else (drop_cab cab stored, none)

unfoldable pub rename : ℤ → ℤ → List ℤ → List ℤ
rename old next [] = []
rename old next (k ∷ ks) = (if eq_ℤ k old then next else k) ∷ rename old next ks

-- The tab of the new address, with the preferences of the old one.
unfoldable pub renewed : ℤ → CabRuntime → CabRuntime
renewed next r = new_runtime (record (new_cab next r.state.toggle) {
  name = r.state.name;
  labels = r.state.labels;
  hidden = r.state.hidden;
})

reassign : ℤ → ℤ → Controller → Controller
unfolding rename renewed
reassign old next c = record c {
  cabs = insert next (renewed next (runtime_of c.cabs old)) c.cabs;
  order = rename old next c.order;
}

forget_cab : ℤ → Controller × Option Error → Controller × Option Error
forget_cab old (c, e) = (record c { cabs = delete old c.cabs }, e)

-- `ReplaceCab` behind the tests of the addresses.
replace_stored : ℤ → ℤ → Action
unfolding reassign forget_cab is_moving
replace_stored old next c =
    if not (contains_key old c.cabs)
    then (c, some closed_error)
    else if is_moving (runtime_of c.cabs old)
    then (c, some (message (codes "stop this locomotive before reassigning its throttle")))
    else forget_cab old (focus_cab next (reassign old next c))

unfoldable pub replace_cab : ℤ → ℤ → Action
unfolding replace_stored
replace_cab old next c =
    if eq_ℤ old next
    then (c, none)
    else (do
      check_encoded (encode_loco_request next)
      fail_when (contains_key next c.cabs) already_open
      (λ c'. replace_stored old next (store_cab c')))
        c
