-- ===== src/Throttle/Power/Group.antt =====
-- What the state of a track means, told by its outputs.
use go_dcc_ex_driver.Base.{
  suc, ◌+◌, ◌≤◌, ◌<◌, ◌≡◌, refl, ◌≢◌, ◌↔◌, ◌⊎◌, inl, inr, true, false, List, [], ◌∷◌, none, some,
  arith, Bytes, Bool-cases,
}
use go_dcc_ex_driver.Protocol.Message.{PowerState, unreported, off, on, overload, mixed}
use go_dcc_ex_driver.Throttle.Power.{has_role, Tally, no_tally, tally, verdict, group_from, group}

-- The reported powers of the outputs with a role, in order.
abbrev pub powers_of : Bytes → List Bytes → List PowerState → List PowerState
powers_of role [] ps = []
powers_of role (m ∷ ms) [] = []
powers_of role (m ∷ ms) (p ∷ ps) = elim (has_role role m) [
  | true ↦ p ∷ powers_of role ms ps
  | false ↦ powers_of role ms ps
]

-- The loop over those powers alone.
fold : PowerState → List PowerState → Tally → PowerState
unfolding tally verdict
fold fallback [] t = verdict fallback t
fold fallback (p ∷ ps) t = elim (tally p t) [ none ↦ overload | some t' ↦ fold fallback ps t' ]

group_from-fold :
    (role : Bytes) (fallback : PowerState) (ms : List Bytes) (ps : List PowerState) (t : Tally)
    → group_from role fallback ms ps t ≡ fold fallback (powers_of role ms ps) t
unfolding group_from fold
group_from-fold role fallback [] ps t = refl
group_from-fold role fallback (m ∷ ms) [] t = refl
group_from-fold role fallback (m ∷ ms) (p ∷ ps) t = elim (Bool-cases (has_role role m)) [
  | inl e ↦ rw (e, group_from, powers_of) (step p (group_from-fold role fallback ms ps))
  | inr e ↦ rw (e, group_from, powers_of) (group_from-fold role fallback ms ps t)
]
  where
    step :
        (p : PowerState)
        → ((u : Tally) → group_from role fallback ms ps u ≡ fold fallback (powers_of role ms ps) u)
        → (elim (tally p t) [ none ↦ overload | some t' ↦ group_from role fallback ms ps t' ])
          ≡ fold fallback (p ∷ powers_of role ms ps) t
    step unreported ih = ih _
    step off ih = ih _
    step on ih = ih _
    step overload ih = refl
    step mixed ih = ih _

abbrev pub Any : PowerState → List PowerState → Type 0
Any s [] = ⊥
Any s (p ∷ ps) = (p ≡ s) ⊎ Any s ps

abbrev pub Each : PowerState → List PowerState → Type 0
Each s [] = Unit
Each s (p ∷ ps) = (p ≡ s) × Each s ps

fold-on :
    (fallback : PowerState) (ps : List PowerState) (t : Tally)
    → t.on_count + t.off_count ≤ t.count
    → (fold fallback ps t ≡ on) ↔ (
        ((t.unknown ≡ false) × (t.on_count ≡ t.count) × Each on ps × ((ps ≢ []) ⊎ (0 < t.count)))
        ⊎ ((t.count ≡ 0) × (ps ≡ []) × (fallback ≡ on)))
unfolding fold
fold-on fallback [] t h = ground arith
fold-on fallback (unreported ∷ ps) t h =
    ground (arith, fold-on fallback ps (record t { count = suc t.count; unknown = true }))
fold-on fallback (off ∷ ps) t h =
    ground
      (arith, fold-on fallback ps (record t { count = suc t.count; off_count = suc t.off_count }))
fold-on fallback (on ∷ ps) t h =
    ground
      (arith, fold-on fallback ps (record t { count = suc t.count; on_count = suc t.on_count }))
fold-on fallback (overload ∷ ps) t h = ground arith
fold-on fallback (mixed ∷ ps) t h =
    ground (arith, fold-on fallback ps (record t { count = suc t.count; unknown = true }))

fold-off :
    (fallback : PowerState) (ps : List PowerState) (t : Tally)
    → t.on_count + t.off_count ≤ t.count
    → (fold fallback ps t ≡ off) ↔ (
        ((t.unknown ≡ false) × (t.off_count ≡ t.count) × Each off ps × ((ps ≢ []) ⊎ (0 < t.count)))
        ⊎ ((t.count ≡ 0) × (ps ≡ []) × (fallback ≡ off)))
unfolding fold
fold-off fallback [] t h = ground arith
fold-off fallback (unreported ∷ ps) t h =
    ground (arith, fold-off fallback ps (record t { count = suc t.count; unknown = true }))
fold-off fallback (off ∷ ps) t h =
    ground
      (arith, fold-off fallback ps (record t { count = suc t.count; off_count = suc t.off_count }))
fold-off fallback (on ∷ ps) t h =
    ground
      (arith, fold-off fallback ps (record t { count = suc t.count; on_count = suc t.on_count }))
fold-off fallback (overload ∷ ps) t h = ground arith
fold-off fallback (mixed ∷ ps) t h =
    ground (arith, fold-off fallback ps (record t { count = suc t.count; unknown = true }))

fold-overload :
    (fallback : PowerState) (ps : List PowerState) (t : Tally)
    → (fold fallback ps t ≡ overload)
      ↔ (Any overload ps ⊎ ((t.count ≡ 0) × (ps ≡ []) × (fallback ≡ overload)))
unfolding fold
fold-overload fallback [] t = ground arith
fold-overload fallback (unreported ∷ ps) t =
    ground (arith, fold-overload fallback ps (record t { count = suc t.count; unknown = true }))
fold-overload fallback (off ∷ ps) t = ground (
  arith,
  fold-overload fallback ps (record t { count = suc t.count; off_count = suc t.off_count }),
)
fold-overload fallback (on ∷ ps) t =
    ground (
      arith,
      fold-overload fallback ps (record t { count = suc t.count; on_count = suc t.on_count }),
    )
fold-overload fallback (overload ∷ ps) t = ground arith
fold-overload fallback (mixed ∷ ps) t =
    ground (arith, fold-overload fallback ps (record t { count = suc t.count; unknown = true }))

-- The state s is shown for a role because each of its outputs is in it, of at least one, or because
-- no output has the role and the last summary said so.
abbrev pub Agreed : PowerState → PowerState → List PowerState → Type 0
Agreed s fallback ps = (Each s ps × (ps ≢ [])) ⊎ ((ps ≡ []) × (fallback ≡ s))

-- For every mapping and every report of the outputs, a track is shown On exactly if all outputs of its
-- role are On, Off exactly if all are Off, and overloaded exactly if one of them is; only where no
-- output has the role does the last summary decide. A summary never hides an output's fault.
pub group_iff :
    (modes : List Bytes) (powers : List PowerState) (role : Bytes) (fallback : PowerState)
    → let ps = powers_of role modes powers in
      ((group modes powers role fallback ≡ on) ↔ Agreed on fallback ps)
      × ((group modes powers role fallback ≡ off) ↔ Agreed off fallback ps)
      × ((group modes powers role fallback ≡ overload)
          ↔ (Any overload ps ⊎ ((ps ≡ []) × (fallback ≡ overload))))
unfolding group
group_iff modes powers role fallback =
    let ps = powers_of role modes powers in
    rw (group_from-fold role fallback modes powers no_tally) (
      ground (arith, fold-on fallback ps no_tally),
      ground (arith, fold-off fallback ps no_tally),
      ground (arith, fold-overload fallback ps no_tally),
    )
