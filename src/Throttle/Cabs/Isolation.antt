-- ===== src/Throttle/Cabs/Isolation.antt =====
-- The abstract view of the tabs, one record for each, and what `WithCab` does to it.
use go_dcc_ex_driver.Base.{
  ◌≡◌, refl, sym, ap, ◌∙◌, true, List, arith, if◌then◌else◌, ℤ, eq_ℤ, eq_ℤ_iff, eq_ℤ_refl, insert,
  contains_key, lookup-insert,
}
use go_dcc_ex_driver.Throttle.State.{CabRuntime, Controller, Action}
use go_dcc_ex_driver.Throttle.Cabs.{
  runtime_of, current_cab, store_cab, load_cab, live_cab, with_cab,
}

pub runtime_of-insert :
    (k j : ℤ) (r : CabRuntime) (m : List (ℤ × CabRuntime))
    → runtime_of (insert k r m) j ≡ (if eq_ℤ k j then r else runtime_of m j)
unfolding runtime_of
runtime_of-insert k j r m = ground (arith, lookup-insert k j r m)

pub contains_key-insert :
    (k j : ℤ) (r : CabRuntime) (m : List (ℤ × CabRuntime))
    → contains_key j (insert k r m) ≡ (if eq_ℤ k j then true else contains_key j m)
contains_key-insert k j r m = ground (arith, lookup-insert k j r m)

-- The map behind a store holds every live record.
pub live_cab-store : (c : Controller) (j : ℤ) → live_cab c j ≡ runtime_of (store_cab c).cabs j
unfolding live_cab store_cab
live_cab-store c j = ground (
  arith,
  eq_ℤ_iff j c.state.cab,
  eq_ℤ_iff c.state.cab j,
  runtime_of-insert c.state.cab j (current_cab c) c.cabs,
)

-- Each record names the cab that it is filed under.
abbrev pub IsKeyed : List (ℤ × CabRuntime) → Type 0
IsKeyed m = (k : ℤ) → contains_key k m ≡ true → (runtime_of m k).state.cab ≡ k

pub store_cab-IsKeyed : (c : Controller) → IsKeyed c.cabs → IsKeyed (store_cab c).cabs
unfolding store_cab
store_cab-IsKeyed c h k = ground (
  arith,
  eq_ℤ_iff c.state.cab k,
  runtime_of-insert c.state.cab k (current_cab c) c.cabs,
  contains_key-insert c.state.cab k (current_cab c) c.cabs,
  h k,
)

pub load_cab_cab :
    (k : ℤ) (c : Controller) → (load_cab k c).state.cab ≡ (runtime_of c.cabs k).state.cab
unfolding load_cab
load_cab_cab k c = refl

pub load_cab_cabs : (k : ℤ) (c : Controller) → (load_cab k c).cabs ≡ c.cabs
unfolding load_cab
load_cab_cabs k c = refl

pub current_cab-load :
    (k : ℤ) (c : Controller)
    → (runtime_of c.cabs k).state.cab ≡ k
    → current_cab (load_cab k c) ≡ runtime_of c.cabs k
unfolding load_cab current_cab
current_cab-load k c e =
    let r = runtime_of c.cabs k in rw e (λ i. record r { state = record r.state { cab = sym e i } })

pub live_cab-load :
    (k j : ℤ) (c : Controller)
    → (runtime_of c.cabs k).state.cab ≡ k
    → live_cab (load_cab k c) j ≡ runtime_of c.cabs j
unfolding live_cab
live_cab-load k j c e =
    ground (arith, eq_ℤ_iff j k, current_cab-load k c e, load_cab_cab k c, load_cab_cabs k c)

-- An action keeps to its cab: it neither selects another one nor writes to the map.
abbrev pub KeepsTo : Controller → Controller → Type 0
KeepsTo before after = (after.state.cab ≡ before.state.cab) × (after.cabs ≡ before.cabs)

-- The controller on which `WithCab` runs its action.
abbrev pub entered : ℤ → Controller → Controller
entered cab c = load_cab cab (store_cab c)

store_cab_cabs : (c : Controller) → (store_cab c).cabs ≡ insert c.state.cab (current_cab c) c.cabs
unfolding store_cab
store_cab_cabs c = refl

stored_key : (c : Controller) → contains_key c.state.cab (store_cab c).cabs ≡ true
stored_key c = rw store_cab_cabs (
    ground (
      arith,
      contains_key-insert c.state.cab c.state.cab (current_cab c) c.cabs,
      eq_ℤ_refl c.state.cab,
    ))

-- The way back from an action that left `g` behind.
module _ (cab : ℤ) (c g : Controller) (keyed : IsKeyed c.cabs) (same_cab : g.state.cab ≡ cab)
    (same_cabs : g.cabs ≡ (store_cab c).cabs) where
  back-keyed : (runtime_of (store_cab g).cabs c.state.cab).state.cab ≡ c.state.cab
  back-keyed =
      let stored = store_cab-IsKeyed c keyed in
      let again : IsKeyed g.cabs = rw same_cabs stored in
      store_cab-IsKeyed g again c.state.cab (
        rw (store_cab_cabs g) (
          ground (
            arith,
            contains_key-insert g.state.cab c.state.cab (current_cab g) g.cabs,
            ap (contains_key c.state.cab) same_cabs,
            stored_key c,
          )))

  back-live :
      (j : ℤ)
      → live_cab (load_cab c.state.cab (store_cab g)) j
        ≡ (if eq_ℤ cab j then current_cab g else live_cab c j)
  back-live j = rw (live_cab-load c.state.cab j (store_cab g) back-keyed) (
      ground (
        arith,
        store_cab_cabs g,
        runtime_of-insert g.state.cab j (current_cab g) g.cabs,
        live_cab-store c j,
        ap (λ m. runtime_of m j) same_cabs,
        ap (λ k. eq_ℤ k j) same_cab,
      ))

  back-selected : (load_cab c.state.cab (store_cab g)).state.cab ≡ c.state.cab
  back-selected = load_cab_cab c.state.cab (store_cab g) ∙ back-keyed

pub entered_cab :
    (cab : ℤ) (c : Controller)
    → IsKeyed c.cabs
    → contains_key cab c.cabs ≡ true
    → (entered cab c).state.cab ≡ cab
entered_cab cab c keyed opened =
    load_cab_cab cab (store_cab c)
    ∙ store_cab-IsKeyed c keyed cab (
        rw (store_cab_cabs c)
          (ground (arith, contains_key-insert c.state.cab cab (current_cab c) c.cabs)))

-- For a cab that is open, in a map that files each record under its own cab, and for any action that
-- keeps to its cab, `WithCab` changes the record of that one cab, to what the action made of it, and
-- of no other; the selected cab stays selected and the action's error is returned.
pub with_cab_isolated :
    (cab j : ℤ) (f : Action) (c : Controller)
    → IsKeyed c.cabs
    → contains_key cab c.cabs ≡ true
    → KeepsTo (entered cab c) (f (entered cab c)).0
    → (live_cab (with_cab cab f c).0 j
        ≡ (if eq_ℤ cab j then current_cab (f (entered cab c)).0 else live_cab c j))
      × ((with_cab cab f c).0.state.cab ≡ c.state.cab)
      × ((with_cab cab f c).1 ≡ (f (entered cab c)).1)
unfolding with_cab
with_cab_isolated cab j f c keyed opened (same_cab, same_cabs) =
    let g = (f (entered cab c)).0 in
    let there : g.state.cab ≡ cab = same_cab ∙ entered_cab cab c keyed opened in
    let there_cabs : g.cabs ≡ (store_cab c).cabs = same_cabs ∙ load_cab_cabs cab (store_cab c) in
    rw opened (
      back-live cab c g keyed there there_cabs j,
      back-selected cab c g keyed there there_cabs,
      refl,
    )
