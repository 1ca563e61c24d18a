-- ===== src/Throttle/Power.antt =====
-- throttle/power.go: the power of the main and the programming track, as the station reports it.
pub mod Group
use go_dcc_ex_driver.Base.{
  ℕ, suc, ◌+◌, ◌-◌, Bool, true, false, not, ◌&&◌, ◌||◌, List, [], ◌∷◌, ◌++◌, Option, none, some,
  ◌==◌, if◌then◌else◌, set, replicate, Bytes, codes, eq_bytes, has_prefix, Error, message,
}
use go_dcc_ex_driver.Protocol.Message.{
  PowerState, unreported, off, on, overload, mixed, TrackPower, is_output,
}
use go_dcc_ex_driver.Protocol.Command.{main_track, prog_track}
use go_dcc_ex_driver.Throttle.State.{State, Controller, Action}
use go_dcc_ex_driver.Throttle.Functions.{power}

-- `mode == role || strings.HasPrefix(mode, role+"_")`
unfoldable pub has_role : Bytes → Bytes → Bool
has_role role mode = eq_bytes mode role || has_prefix mode (role ++ b'_' ∷ [])

-- The variables of the loop in `group`.
pub record Tally : Type 0 where
  pub count : ℕ
  pub on_count : ℕ
  pub off_count : ℕ
  pub unknown : Bool

abbrev pub no_tally : Tally
no_tally = record { count = 0; on_count = 0; off_count = 0; unknown = false }

-- One output of the role; `none` is the early return of `Overload`.
tally : PowerState → Tally → Option Tally
tally overload t = none
tally on t = some (record t { count = suc t.count; on_count = suc t.on_count })
tally off t = some (record t { count = suc t.count; off_count = suc t.off_count })
tally _ t = some (record t { count = suc t.count; unknown = true })

-- The returns behind the loop.
verdict : PowerState → Tally → PowerState
verdict fallback t =
    if t.count == 0
    then fallback
    else if t.unknown
    then unreported
    else if t.on_count == t.count
    then on
    else if t.off_count == t.count
    then off
    else mixed

-- The loop over the outputs, with their modes and powers. Both arrays have eight entries.
group_from : Bytes → PowerState → List Bytes → List PowerState → Tally → PowerState
unfolding tally verdict has_role
group_from role fallback [] ps t = verdict fallback t
group_from role fallback (m ∷ ms) [] t = verdict fallback t
group_from role fallback (m ∷ ms) (p ∷ ps) t = elim (has_role role m) [
  | false ↦ group_from role fallback ms ps t
  | true ↦ elim (tally p t) [ none ↦ overload | some t' ↦ group_from role fallback ms ps t' ]
]

unfoldable pub group : List Bytes → List PowerState → Bytes → PowerState → PowerState
unfolding group_from
group modes powers role fallback = group_from role fallback modes powers no_tally

abbrev pub is_overload : PowerState → Bool
is_overload overload = true
is_overload _ = false

unfoldable pub update_track_power : Controller → Controller
update_track_power c =
    let main = group c.track_modes c.track_powers main_track c.state.main_power in
    let prog = group c.track_modes c.track_powers prog_track c.state.prog_power in
    record c {
      state = record c.state {
        main_power = main;
        prog_power = prog;
        overload = is_overload main || is_overload prog;
      };
    }

-- `v.Track[0]-'A'` of an output
abbrev pub output_index : Bytes → ℕ
output_index [] = 0
output_index (c ∷ s) = c - b'A'

-- The `switch` on the track of a power reply.
unfoldable pub note_power : TrackPower → Controller → Controller
note_power v c =
    if eq_bytes v.track (codes "MAIN")
    then record c { state = record c.state { main_power = v.state } }
    else if eq_bytes v.track (codes "PROG")
    then record c { state = record c.state { prog_power = v.state } }
    else if eq_bytes v.track (codes "ALL") || eq_bytes v.track (codes "JOIN")
    then record c { state = record c.state { main_power = v.state; prog_power = v.state } }
    else if is_output v.track
    then record c { track_powers = set c.track_powers (output_index v.track) v.state }
    else c

unfoldable pub receive_power : TrackPower → Controller → Controller
unfolding note_power
receive_power v c = update_track_power (note_power v c)

abbrev pub is_off : PowerState → Bool
is_off off = true
is_off _ = false

abbrev pub is_unreported : PowerState → Bool
is_unreported unreported = true
is_unreported _ = false

-- `TogglePower` once the state of the track is known.
toggle_from : PowerState → Bytes → Action
toggle_from state track c =
    if not c.state.connected || is_unreported state
    then (c, some (message (codes "track power state is not known")))
    else power (is_off state) track c

unfoldable pub toggle_power : Bytes → Action
unfolding toggle_from
toggle_power track c =
    if eq_bytes track main_track
    then toggle_from c.state.main_power track c
    else if eq_bytes track prog_track
    then toggle_from c.state.prog_power track c
    else (c, some (message (codes "only MAIN and PROG can be toggled")))
