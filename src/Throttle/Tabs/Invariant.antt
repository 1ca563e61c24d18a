-- ===== src/Throttle/Tabs/Invariant.antt =====
-- The well-formed tabs: what the map `cabs`, the list `order` and the selected cab have to do with
-- one another, and what single writes do to it.
use go_dcc_ex_driver.Base.{
  is_in, Distinct, ◌≡◌, Bool, true, false, not, ◌&&◌, List, [], ◌∷◌, ◌++◌, inl, inr, arith, ℤ, pos,
  Between, eq_ℤ, eq_ℤ_iff, insert, delete, map_values, lookup, Option-cases, lookup-delete,
  lookup-map_values,
}
use go_dcc_ex_driver.Throttle.State.{CabRuntime, Controller}
use go_dcc_ex_driver.Throttle.Cabs.{runtime_of}
use go_dcc_ex_driver.Throttle.Cabs.Isolation.{IsKeyed, runtime_of-insert}
use go_dcc_ex_driver.Throttle.Tabs.{without, rename}
use go_dcc_ex_driver.Throttle.Tabs.Keys.{
  keys, is_in-append, Distinct-append, is_in-without, without-Distinct, is_in-rename,
  rename-Distinct, contains_key-keys, keys-insert, keys-delete, keys-map_values,
}

-- Every record is filed under its address, no address is open twice, the tabs are the open cabs in
-- some order, the selected cab is one of them, and every address is one that the protocol has.
-- A cab that is `gone` is still in the map, but has no tab.
pub record Tabs (gone : ℤ → Bool) (cabs : List (ℤ × CabRuntime)) (order : List ℤ) (selected : ℤ)
    : Type 0 where
  pub keyed : IsKeyed cabs
  pub keys_distinct : Distinct (keys cabs)
  pub order_distinct : Distinct order
  pub listed : (k : ℤ) → is_in k order ≡ (is_in k (keys cabs) && not (gone k))
  pub selected_open : is_in selected (keys cabs) ≡ true
  pub allowed : (k : ℤ) → is_in k (keys cabs) ≡ true → Between (pos 1) k (pos 10293)

abbrev pub nobody : ℤ → Bool
nobody k = false

abbrev pub IsWellFormed : Controller → Type 0
IsWellFormed c = Tabs nobody c.cabs c.order c.state.cab

pub insert-IsKeyed :
    (k : ℤ) (r : CabRuntime) (m : List (ℤ × CabRuntime))
    → r.state.cab ≡ k
    → IsKeyed m
    → IsKeyed (insert k r m)
insert-IsKeyed k r m e h j = ground (
  arith,
  e,
  eq_ℤ_iff k j,
  runtime_of-insert k j r m,
  contains_key-keys j (insert k r m),
  contains_key-keys j m,
  keys-insert k r m,
  is_in-append j k (keys m),
  h j,
)

delete-IsKeyed : (k : ℤ) (m : List (ℤ × CabRuntime)) → IsKeyed m → IsKeyed (delete k m)
unfolding runtime_of
delete-IsKeyed k m h j = ground (arith, lookup-delete k j m, h j)

map-IsKeyed :
    (f : CabRuntime → CabRuntime) (m : List (ℤ × CabRuntime))
    → ((r : CabRuntime) → (f r).state.cab ≡ r.state.cab)
    → IsKeyed m
    → IsKeyed (map_values f m)
unfolding runtime_of
map-IsKeyed f m same h j = elim (Option-cases (lookup j m)) [
  | inl e ↦ ground (arith, lookup-map_values f j m)
  | inr (r, e) ↦ ground (arith, lookup-map_values f j m, same r, h j)
]

module _ {gone : ℤ → Bool} {m : List (ℤ × CabRuntime)} {order : List ℤ} {s : ℤ}
    (t : Tabs gone m order s) where
  pub select-Tabs : (k : ℤ) → is_in k (keys m) ≡ true → Tabs gone m order k
  select-Tabs k h = record {
    keyed = t.keyed;
    keys_distinct = t.keys_distinct;
    order_distinct = t.order_distinct;
    listed = t.listed;
    selected_open = h;
    allowed = t.allowed;
  }

  -- A write to a cab that is open.
  pub write-Tabs :
      (k : ℤ) (r : CabRuntime)
      → is_in k (keys m) ≡ true
      → r.state.cab ≡ k
      → Tabs gone (insert k r m) order s
  write-Tabs k r h e =
      let same : keys (insert k r m) ≡ keys m = ground (arith, keys-insert k r m) in
      record {
        keyed = insert-IsKeyed k r m e t.keyed;
        keys_distinct = rw same t.keys_distinct;
        order_distinct = t.order_distinct;
        listed = λ j. rw same (t.listed j);
        selected_open = rw same t.selected_open;
        allowed = λ j. rw same (t.allowed j);
      }

  pub map-Tabs :
      (f : CabRuntime → CabRuntime)
      → ((r : CabRuntime) → (f r).state.cab ≡ r.state.cab)
      → Tabs gone (map_values f m) order s
  map-Tabs f same =
      let e = keys-map_values f m in
      record {
        keyed = map-IsKeyed f m same t.keyed;
        keys_distinct = rw e t.keys_distinct;
        order_distinct = t.order_distinct;
        listed = λ j. rw e (t.listed j);
        selected_open = rw e t.selected_open;
        allowed = λ j. rw e (t.allowed j);
      }

-- A new cab, at the end of the order.
pub open-Tabs :
    {m : List (ℤ × CabRuntime)} {order : List ℤ} {s : ℤ} (t : Tabs nobody m order s) (k : ℤ)
    (r : CabRuntime)
    → is_in k (keys m) ≡ false
    → r.state.cab ≡ k
    → Between (pos 1) k (pos 10293)
    → Tabs nobody (insert k r m) (order ++ k ∷ []) s
open-Tabs {m = m} {order = order} {s = s} t k r h e b =
    let more : keys (insert k r m) ≡ keys m ++ k ∷ [] = ground (arith, keys-insert k r m) in
    record {
      keyed = insert-IsKeyed k r m e t.keyed;
      keys_distinct = rw more (Distinct-append k (keys m) h t.keys_distinct);
      order_distinct = Distinct-append k order (ground (arith, t.listed k)) t.order_distinct;
      listed = λ j.
          rw more (ground (arith, is_in-append j k order, is_in-append j k (keys m), t.listed j));
      selected_open = rw more (ground (arith, is_in-append s k (keys m), t.selected_open));
      allowed = λ j.
          rw more (λ x. ground (arith, is_in-append j k (keys m), t.allowed j, eq_ℤ_iff k j, b, x));
    }

-- A cab loses its tab.
pub close-Tabs :
    {m : List (ℤ × CabRuntime)} {order : List ℤ} {s : ℤ} (t : Tabs nobody m order s) (k : ℤ)
    → Tabs (eq_ℤ k) m (without k order) s
close-Tabs {m = m} {order = order} t k = record {
  keyed = t.keyed;
  keys_distinct = t.keys_distinct;
  order_distinct = without-Distinct k order t.order_distinct;
  listed = λ j. ground (arith, is_in-without j k order, t.listed j);
  selected_open = t.selected_open;
  allowed = t.allowed;
}

-- A tab changes hands.
pub rename-Tabs :
    {m : List (ℤ × CabRuntime)} {order : List ℤ} {s : ℤ} (t : Tabs nobody m order s) (old next : ℤ)
    (r : CabRuntime)
    → is_in old (keys m) ≡ true
    → is_in next (keys m) ≡ false
    → r.state.cab ≡ next
    → Between (pos 1) next (pos 10293)
    → Tabs (eq_ℤ old) (insert next r m) (rename old next order) s
rename-Tabs {m = m} {order = order} {s = s} t old next r h n e b =
    let more : keys (insert next r m) ≡ keys m ++ next ∷ [] =
      ground (arith, keys-insert next r m) in
    record {
      keyed = insert-IsKeyed next r m e t.keyed;
      keys_distinct = rw more (Distinct-append next (keys m) n t.keys_distinct);
      order_distinct =
          rename-Distinct old next order (ground (arith, t.listed next)) t.order_distinct;
      listed = λ j. rw more (
          ground (
            arith,
            is_in-rename j old next order,
            is_in-append j next (keys m),
            t.listed j,
            t.listed old,
            eq_ℤ_iff old j,
            eq_ℤ_iff next j,
          ));
      selected_open = rw more (ground (arith, is_in-append s next (keys m), t.selected_open));
      allowed = λ j.
          rw more
            (λ x. ground (arith, is_in-append j next (keys m), t.allowed j, eq_ℤ_iff next j, b, x));
    }

-- A cab without a tab is deleted.
pub delete-Tabs :
    {m : List (ℤ × CabRuntime)} {order : List ℤ} {s : ℤ} (k : ℤ)
    → Tabs (eq_ℤ k) m order s
    → eq_ℤ k s ≡ false
    → Tabs nobody (delete k m) order s
delete-Tabs {m = m} {s = s} k t n = record {
  keyed = delete-IsKeyed k m t.keyed;
  keys_distinct = rw (keys-delete k m) (without-Distinct k (keys m) t.keys_distinct);
  order_distinct = t.order_distinct;
  listed = λ j. rw (keys-delete k m) (ground (arith, is_in-without j k (keys m), t.listed j));
  selected_open =
      rw (keys-delete k m) (ground (arith, is_in-without s k (keys m), t.selected_open, n));
  allowed =
      λ j. rw (keys-delete k m) (λ x. ground (arith, is_in-without j k (keys m), t.allowed j, x));
}
