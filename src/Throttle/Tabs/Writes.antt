-- ===== src/Throttle/Tabs/Writes.antt =====
-- Single steps of the tab operations on well-formed tabs: commands, the log, and the moves between
-- the live fields and the map.
use go_dcc_ex_driver.Base.{
  is_in, ◌≡◌, refl, sym, ◌∙◌, inl, inr, Bool, true, false, Option, none, some, arith, Bool-cases, ℤ,
  pos, Between, eq_ℤ_refl, Bytes, map_values, contains_key, Error, ok,
}
use go_dcc_ex_driver.Protocol.Command.{encode_loco_request, check_cab}
use go_dcc_ex_driver.Protocol.Number.{in_range}
use go_dcc_ex_driver.Throttle.State.{
  Kind, new_cab, new_runtime, Sender, Controller, Action, ◌>>◌, then_cases,
}
use go_dcc_ex_driver.Throttle.Link.{log, detach, detach_cab, answered, send_to, send}
use go_dcc_ex_driver.Throttle.Cabs.{current_cab, store_cab, load_cab}
use go_dcc_ex_driver.Throttle.Tabs.{open_cab}
use go_dcc_ex_driver.Throttle.Tabs.Keys.{keys, contains_key-keys, keys-insert, is_in-append}
use go_dcc_ex_driver.Throttle.Tabs.Invariant.{
  Tabs, IsWellFormed, select-Tabs, write-Tabs, map-Tabs, open-Tabs,
}

abbrev pub Holds : (ℤ → Bool) → Controller → Type 0
Holds gone c = Tabs gone c.cabs c.order c.state.cab

-- What a command leaves of the tabs: all of them, detached if it failed.
pub data Kept (c d : Controller) : Type 0 where
  same : d.cabs ≡ c.cabs → d.order ≡ c.order → d.state.cab ≡ c.state.cab → Kept c d
  gone_quiet :
      d.cabs ≡ map_values detach_cab c.cabs
      → d.order ≡ c.order
      → d.state.cab ≡ c.state.cab
      → Kept c d

pub Kept-Holds : {gone : ℤ → Bool} (c d : Controller) → Kept c d → Holds gone c → Holds gone d
Kept-Holds c d (same a b e) t = rw (a, b, e) t
Kept-Holds c d (gone_quiet a b e) t =
    rw (a, b, e) (map-Tabs t detach_cab (λ r. unfold detach_cab in refl))

answered-Kept :
    (o : Option Error) (cmd : Bytes) (quiet : Bool) (c : Controller)
    → Kept c (answered o cmd quiet c).0
unfolding answered log detach
answered-Kept none cmd true c = same refl refl refl
answered-Kept none cmd false c = same refl refl refl
answered-Kept (some e) cmd quiet c = gone_quiet refl refl refl

pub send_to-Kept :
    (o : Option Sender) (cmd : Bytes) (quiet : Bool) (c : Controller)
    → Kept c (send_to o cmd quiet c).0
unfolding send_to log
send_to-Kept none cmd true c = same refl refl refl
send_to-Kept none cmd false c = same refl refl refl
send_to-Kept (some s) cmd quiet c = answered-Kept (s.answer c.trace cmd) cmd quiet c

pub Kept-cab : (c d : Controller) → Kept c d → d.state.cab ≡ c.state.cab
Kept-cab c d (same a b e) = e
Kept-cab c d (gone_quiet a b e) = e

pub send-Holds :
    {gone : ℤ → Bool} (cmd : Bytes) (quiet : Bool) (c : Controller)
    → Holds gone c
    → Holds gone (send cmd quiet c).0
unfolding send
send-Holds cmd quiet c t =
    Kept-Holds c (send_to c.sender cmd quiet c).0 (send_to-Kept c.sender cmd quiet c) t

pub store_cab-Holds : {gone : ℤ → Bool} (c : Controller) → Holds gone c → Holds gone (store_cab c)
unfolding store_cab
store_cab-Holds c t =
    write-Tabs t c.state.cab (current_cab c) t.selected_open (unfold current_cab in refl)

pub load_cab-Holds :
    {gone : ℤ → Bool} (k : ℤ) (c : Controller)
    → is_in k (keys c.cabs) ≡ true
    → Holds gone c
    → Holds gone (load_cab k c)
unfolding load_cab
load_cab-Holds k c h t = rw (t.keyed k (contains_key-keys k c.cabs ∙ h)) (select-Tabs t k h)

pub allowed_of : (k : ℤ) (s : Bytes) → encode_loco_request k ≡ ok s → Between (pos 1) k (pos 10293)
unfolding encode_loco_request check_cab in_range
allowed_of k s h = ground arith

pub log-Holds :
    {gone : ℤ → Bool} (k : Kind) (text : Bytes) (c : Controller)
    → Holds gone c
    → Holds gone (log k text c)
unfolding log
log-Holds k text c t = t

pub open_cab-Holds :
    (k : ℤ) (c : Controller)
    → Between (pos 1) k (pos 10293)
    → IsWellFormed c
    → IsWellFormed (open_cab k c) × (is_in k (keys (open_cab k c).cabs) ≡ true)
unfolding open_cab
open_cab-Holds k c b t = elim (Bool-cases (contains_key k c.cabs)) [
  | inl e ↦ rw e (t, sym (contains_key-keys k c.cabs) ∙ e)
  | inr e ↦
      let absent : is_in k (keys c.cabs) ≡ false = sym (contains_key-keys k c.cabs) ∙ e in
      let r = new_runtime (new_cab k c.default_toggle) in
      rw e (
        open-Tabs t k r absent (unfold new_runtime new_cab in refl) b,
        ground (arith, keys-insert k r c.cabs, is_in-append k k (keys c.cabs), eq_ℤ_refl k),
      )
]

pub keys-store_cab :
    {gone : ℤ → Bool} (c : Controller) → Holds gone c → keys (store_cab c).cabs ≡ keys c.cabs
unfolding store_cab
keys-store_cab c t = ground (arith, keys-insert c.state.cab (current_cab c) c.cabs, t.selected_open)

pub open_cab_opened : (k : ℤ) (c : Controller) → contains_key k c.cabs ≡ true → open_cab k c ≡ c
unfolding open_cab
open_cab_opened k c e = rw e

-- An action keeps the tabs well-formed, with an error or without.
abbrev pub Keeps : Action → Type 0
Keeps m = (c : Controller) → IsWellFormed c → IsWellFormed (m c).0

pub then-Keeps : (m k : Action) → Keeps m → Keeps k → Keeps (m >> k)
then-Keeps m k h g c t =
    then_cases (λ r. IsWellFormed r.0) m k c (λ e. g (m c).0 (h c t)) (λ x e. h c t)

pub send-Keeps : (cmd : Bytes) → Keeps (send cmd false)
send-Keeps cmd c t = send-Holds cmd false c t
