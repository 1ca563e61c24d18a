-- ===== src/Throttle/Tabs/Steady.antt =====
-- Actions that open, close and select no tab.
use go_dcc_ex_driver.Base.{
  ◌≡◌, refl, sym, ap, ◌∙◌, inl, inr, ◌⊎◌, Bool, true, false, Option, none, some, Option-cases,
  arith, if◌then◌else◌, ℤ, eq_ℤ, Bytes, Error, Result, ok, is_in, map_values, contains_key,
  Bool-cases,
}
use go_dcc_ex_driver.Base
use go_dcc_ex_driver.Throttle.State.{CabRuntime, Controller, Action, ◌>>◌, fail_when, then_cases}
use go_dcc_ex_driver.Throttle.Link.{log, detach, detach_cab, send, send_to, command}
use go_dcc_ex_driver.Throttle.Cabs.{store_cab, load_cab, with_cab}
use go_dcc_ex_driver.Throttle.Drive.{check_encoded, send_encoded}
use go_dcc_ex_driver.Throttle.Tabs.Keys.{keys, keys-map_values, contains_key-keys}
use go_dcc_ex_driver.Throttle.Tabs.Invariant.{IsWellFormed, map-Tabs}
use go_dcc_ex_driver.Throttle.Tabs.Writes.{
  Kept, same, gone_quiet, send_to-Kept, store_cab-Holds, load_cab-Holds, keys-store_cab,
}

-- From well-formed tabs to well-formed tabs, with the same addresses open and the same one selected.
abbrev pub IsSteady : Controller → Controller → Type 0
IsSteady c d = IsWellFormed d × (keys d.cabs ≡ keys c.cabs) × (d.state.cab ≡ c.state.cab)

abbrev pub Steady : Action → Type 0
Steady m = (c : Controller) → IsWellFormed c → IsSteady c (m c).0

pub IsSteady-trans :
    (c d e : Controller) → IsSteady c d → (IsWellFormed d → IsSteady d e) → IsSteady c e
IsSteady-trans c d e (t, k, s) h = let (u, l, r) = h t in (u, l ∙ k, r ∙ s)

pub then-Steady : (m k : Action) → Steady m → Steady k → Steady (m >> k)
then-Steady m k h g c t =
    then_cases (λ r. IsSteady c r.0) m k c
      (λ e. IsSteady-trans c (m c).0 (k (m c).0).0 (h c t) (g (m c).0)) (λ x e. h c t)

pub either_way :
    (c : Controller) (b : Bool) (x y : Controller × Option Error)
    → IsSteady c x.0
    → IsSteady c y.0
    → IsSteady c (if b then x else y).0
either_way c true x y t u = t
either_way c false x y t u = u

-- Every record is rewritten in its place.
pub map-IsSteady :
    (f : CabRuntime → CabRuntime) (c d : Controller)
    → ((r : CabRuntime) → (f r).state.cab ≡ r.state.cab)
    → d.cabs ≡ map_values f c.cabs
    → d.order ≡ c.order
    → d.state.cab ≡ c.state.cab
    → IsWellFormed c
    → IsSteady c d
map-IsSteady f c d same_cab a b e t =
    (rw (a, b, e) (map-Tabs t f same_cab), ap keys a ∙ keys-map_values f c.cabs, e)

Kept-IsSteady : (c d : Controller) → Kept c d → IsWellFormed c → IsSteady c d
Kept-IsSteady c d (same a b e) t = (rw (a, b, e) t, ap keys a, e)
Kept-IsSteady c d (gone_quiet a b e) t =
    map-IsSteady detach_cab c d (λ r. unfold detach_cab in refl) a b e t

pub send-Steady : (cmd : Bytes) (quiet : Bool) → Steady (send cmd quiet)
unfolding send
send-Steady cmd quiet c t =
    Kept-IsSteady c (send_to c.sender cmd quiet c).0 (send_to-Kept c.sender cmd quiet c) t

pub check_encoded-Steady : (r : Result Bytes) → Steady (check_encoded r)
check_encoded-Steady (ok cmd) = λ c t. (t, refl, refl)
check_encoded-Steady (Base.err e) = λ c t. (t, refl, refl)

pub fail_when-Steady : (bad : Bool) (e : Error) → Steady (fail_when bad e)
fail_when-Steady true e = λ c t. (t, refl, refl)
fail_when-Steady false e = λ c t. (t, refl, refl)

pub send_encoded-Steady : (r : Result Bytes) → Steady (send_encoded r)
send_encoded-Steady (ok cmd) = send-Steady cmd false
send_encoded-Steady (Base.err e) = λ c t. (t, refl, refl)

pub command-Steady : (r : Result Bytes) → Steady (command r)
unfolding command log
command-Steady (ok cmd) = send-Steady cmd false
command-Steady (Base.err e) = λ c t. (t, refl, refl)

pub detach-IsSteady :
    (reason : Bytes) (c : Controller) → IsWellFormed c → IsSteady c (detach reason c)
unfolding detach
detach-IsSteady reason c t =
    map-IsSteady detach_cab c (detach reason c) (λ r. unfold detach_cab in refl) refl refl refl t

store-IsSteady : (c : Controller) → IsWellFormed c → IsSteady c (store_cab c)
store-IsSteady c t = (store_cab-Holds c t, keys-store_cab c t, unfold store_cab in refl)

-- Into one of the open cabs.
load_open :
    (k : ℤ) (c : Controller)
    → IsWellFormed c
    → is_in k (keys c.cabs) ≡ true
    → IsWellFormed (load_cab k c)
      × (keys (load_cab k c).cabs ≡ keys c.cabs)
      × ((load_cab k c).state.cab ≡ k)
load_open k c t h = (
  load_cab-Holds k c h t,
  unfold load_cab in refl,
  unfold load_cab in t.keyed k (contains_key-keys k c.cabs ∙ h),
)

-- The way of `WithCab` through another cab and back.
around :
    (cab : ℤ) (m : Action) (c : Controller)
    → Steady m
    → IsWellFormed c
    → is_in cab (keys c.cabs) ≡ true
    → IsSteady c (load_cab c.state.cab (store_cab (m (load_cab cab (store_cab c))).0))
around cab m c h t i =
    let (t1, k1, s1) = store-IsSteady c t in
    let (t2, k2, s2) = load_open cab (store_cab c) t1 (ap (is_in cab) k1 ∙ i) in
    let (t3, k3, s3) = h (load_cab cab (store_cab c)) t2 in
    let g = (m (load_cab cab (store_cab c))).0 in
    let (t4, k4, s4) = store-IsSteady g t3 in
    let back : keys (store_cab g).cabs ≡ keys c.cabs = k4 ∙ k3 ∙ k2 ∙ k1 in
    let (t5, k5, s5) =
      load_open c.state.cab (store_cab g) t4 (ap (is_in c.state.cab) back ∙ t.selected_open) in
    (t5, k5 ∙ back, s5)

pub with_cab-Steady : (cab : ℤ) (m : Action) → Steady m → Steady (with_cab cab m)
unfolding with_cab
with_cab-Steady cab m h c t = elim (Bool-cases (contains_key cab c.cabs)) [
  | inl e ↦ rw e (around cab m c h t (sym (contains_key-keys cab c.cabs) ∙ e))
  | inr e ↦ rw e (t, refl, refl)
]
