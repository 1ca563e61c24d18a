-- ===== src/Throttle/Preferences/Loading.antt =====
-- The loop that restores the saved tabs: the map, its keys and the order behind it.
use go_dcc_ex_driver.Base.{
  ◌≡◌, refl, ◌∙◌, arith, false, List, [], ◌∷◌, ◌++◌, append_assoc, append-nil, All, is_in, Distinct,
  ℤ, eq_ℤ_iff, insert,
}
use go_dcc_ex_driver.Config.Throttles.{ThrottleTab}
use go_dcc_ex_driver.Config.Throttles.Valid.{addresses}
use go_dcc_ex_driver.Throttle.State.{new_cab, new_runtime, Controller}
use go_dcc_ex_driver.Throttle.Cabs.{runtime_of}
use go_dcc_ex_driver.Throttle.Cabs.Isolation.{IsKeyed, runtime_of-insert}
use go_dcc_ex_driver.Throttle.Tabs.Keys.{keys, is_in-append, keys-insert}
use go_dcc_ex_driver.Throttle.Tabs.Invariant.{insert-IsKeyed}
use go_dcc_ex_driver.Throttle.Preferences.{restored, restore_each}

-- One round of the loop.
abbrev opened : ThrottleTab → Controller → Controller
opened t c = record c {
  cabs = insert t.address (restored c.default_toggle t) c.cabs;
  order = c.order ++ t.address ∷ [];
}

kept :
    (k : ℤ) (ts : List ThrottleTab) (c : Controller)
    → is_in k (addresses ts) ≡ false
    → runtime_of (restore_each ts c).cabs k ≡ runtime_of c.cabs k
unfolding restore_each is_in
kept k [] c h = refl
kept k (t ∷ ts) c h = ground (
  arith,
  kept k ts (opened t c),
  runtime_of-insert t.address k (restored c.default_toggle t) c.cabs,
)

pub found :
    (ts : List ThrottleTab) (c : Controller)
    → Distinct (addresses ts)
    → All (λ t. runtime_of (restore_each ts c).cabs t.address ≡ restored c.default_toggle t) ts
unfolding restore_each Distinct
found [] c d = tt
found (t ∷ ts) c (a, d) = (
  kept t.address ts (opened t c) a
      ∙ ground (
        arith,
        runtime_of-insert t.address t.address (restored c.default_toggle t) c.cabs,
        eq_ℤ_iff t.address t.address,
      ),
  found ts (opened t c) d,
)

pub order-restore_each :
    (ts : List ThrottleTab) (c : Controller) → (restore_each ts c).order ≡ c.order ++ addresses ts
unfolding restore_each
order-restore_each [] c = simp append-nil
order-restore_each (t ∷ ts) c = simp (order-restore_each ts (opened t c), append_assoc)

still_unseen :
    (a : ℤ) (ks xs : List ℤ)
    → is_in a xs ≡ false
    → All (λ x. is_in x ks ≡ false) xs
    → All (λ x. is_in x (ks ++ a ∷ []) ≡ false) xs
unfolding is_in
still_unseen a ks [] n h = tt
still_unseen a ks (x ∷ xs) n (u, h) =
    ground (arith, is_in-append x a ks, eq_ℤ_iff x a, eq_ℤ_iff a x, still_unseen a ks xs)

pub keys-restore_each :
    (ts : List ThrottleTab) (c : Controller)
    → Distinct (addresses ts)
    → All (λ a. is_in a (keys c.cabs) ≡ false) (addresses ts)
    → keys (restore_each ts c).cabs ≡ keys c.cabs ++ addresses ts
unfolding restore_each Distinct
keys-restore_each [] c d h = simp append-nil
keys-restore_each (t ∷ ts) c (a, d) (n, h) =
    let e : keys (opened t c).cabs ≡ keys c.cabs ++ t.address ∷ [] =
      ground (arith, keys-insert t.address (restored c.default_toggle t) c.cabs) in
    let fresh : All (λ x. is_in x (keys (opened t c).cabs) ≡ false) (addresses ts) =
      rw e (still_unseen t.address (keys c.cabs) (addresses ts) a h) in
    simp (keys-restore_each ts (opened t c) d fresh, e, append_assoc)

pub IsKeyed-restore_each :
    (ts : List ThrottleTab) (c : Controller) → IsKeyed c.cabs → IsKeyed (restore_each ts c).cabs
unfolding restore_each restored new_runtime new_cab
IsKeyed-restore_each [] c h = h
IsKeyed-restore_each (t ∷ ts) c h =
    IsKeyed-restore_each ts (opened t c)
      (insert-IsKeyed t.address (restored c.default_toggle t) c.cabs refl h)
