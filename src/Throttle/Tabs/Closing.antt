-- ===== src/Throttle/Tabs/Closing.antt =====
-- Closing a tab and reassigning it, on well-formed tabs.
use go_dcc_ex_driver.Base.{
  is_in, ◌≡◌, ◌≢◌, refl, sym, ap, ◌∙◌, inl, inr, true, false, List, [], ◌∷◌, Option, Error, ◌≤◌,
  ◌==◌, arith, Bool-cases, length, ℤ, pos, Between, eq_ℤ, eq_ℤ_iff, eq_ℤ_refl, Bytes, delete,
  contains_key, lookup, ok, Result-cases,
}
use go_dcc_ex_driver.Protocol.Command.{encode_loco_request}
use go_dcc_ex_driver.Throttle.State.{CabRuntime, new_cab, new_runtime, Controller}
use go_dcc_ex_driver.Throttle.Cabs.{
  runtime_of, current_cab, store_cab, load_cab, live_cab, cab_states_of, cab_states,
}
use go_dcc_ex_driver.Throttle.Cabs.Isolation.{IsKeyed}
use go_dcc_ex_driver.Throttle.Tabs.{
  focus_cab, without, drop_cab, remove_cab, replace_cab, replace_stored, reassign, renewed,
  load_first, is_moving, forget_cab,
}
use go_dcc_ex_driver.Throttle.Tabs.Keys.{
  keys, contains_key-keys, keys-insert, is_in-append, is_in-without, without_ne_nil, length-keys,
}
use go_dcc_ex_driver.Throttle.Tabs.Invariant.{
  Tabs, nobody, IsWellFormed, select-Tabs, close-Tabs, rename-Tabs, delete-Tabs,
}
use go_dcc_ex_driver.Throttle.Tabs.Writes.{Holds, store_cab-Holds, keys-store_cab, allowed_of}
use go_dcc_ex_driver.Throttle.Tabs.Selecting.{focus_opened}

live_cab_cab :
    (c : Controller) (k : ℤ)
    → IsKeyed c.cabs
    → contains_key k c.cabs ≡ true
    → (live_cab c k).state.cab ≡ k
unfolding live_cab current_cab
live_cab_cab c k keyed h = ground (arith, eq_ℤ_iff k c.state.cab, keyed k h)

load_found : (k : ℤ) (c : Controller) → Tabs nobody c.cabs c.order k → IsWellFormed (load_cab k c)
unfolding load_cab
load_found k c t = rw (t.keyed k (contains_key-keys k c.cabs ∙ t.selected_open)) t

first_cab :
    (c : Controller) (k : ℤ) (ks : List ℤ)
    → c.order ≡ k ∷ ks
    → cab_states c ≡ (live_cab c k).state ∷ cab_states_of c ks
unfolding cab_states cab_states_of
first_cab c k ks e = ap (cab_states_of c) e

-- Any of the tabs that are left can be the first.
load_first-IsWellFormed :
    (c : Controller) (order : List ℤ)
    → c.order ≡ order
    → order ≢ []
    → ((k : ℤ) → is_in k order ≡ true → Tabs nobody c.cabs c.order k)
    → IsWellFormed (load_first (cab_states c) c)
unfolding load_first
load_first-IsWellFormed c [] e n h = absurd (n refl)
load_first-IsWellFormed c (k ∷ ks) e n h =
    let t = h k (unfold is_in in ground (arith, eq_ℤ_refl k)) in
    let named = live_cab_cab c k t.keyed (contains_key-keys k c.cabs ∙ t.selected_open) in
    rw (first_cab c k ks e, named) (load_found k c t)

closed-Tabs :
    {m : List (ℤ × CabRuntime)} {order : List ℤ} {s : ℤ} (k j : ℤ)
    → Tabs nobody m order s
    → is_in j (without k order) ≡ true
    → Tabs nobody (delete k m) (without k order) j
closed-Tabs {m = m} {order = order} k j t h =
    let there : is_in j (keys m) ≡ true = ground (arith, is_in-without j k order, t.listed j) in
    let other : eq_ℤ k j ≡ false = ground (arith, is_in-without j k order) in
    delete-Tabs k (select-Tabs (close-Tabs t k) j there) other

some_left :
    (k : ℤ) (ks order left : List ℤ)
    → ((j : ℤ) → is_in j order ≡ is_in j ks)
    → without k ks ≡ left
    → 1 ≤ length left
    → without k order ≢ []
unfolding is_in
some_left k ks order [] same e h gone = absurd (omega arith)
some_left k ks order (y ∷ ys) same e h gone = ground (
  arith,
  ap (is_in y) e,
  ap (is_in y) gone,
  is_in-without y k ks,
  is_in-without y k order,
  same y,
  eq_ℤ_refl y,
)

-- With two tabs or more, one is left.
left_over :
    {m : List (ℤ × CabRuntime)} {order : List ℤ} {s : ℤ} (k : ℤ)
    → Tabs nobody m order s
    → 2 ≤ length m
    → without k order ≢ []
left_over {m = m} {order = order} k t h =
    some_left k (keys m) order (without k (keys m)) (λ j. ground (arith, t.listed j)) refl
      (without_ne_nil k (keys m) t.keys_distinct (omega (arith, length-keys m)))

drop_cab-IsWellFormed :
    (k : ℤ) (c : Controller) → IsWellFormed c → 2 ≤ length c.cabs → IsWellFormed (drop_cab k c)
unfolding drop_cab
drop_cab-IsWellFormed k c t h = elim (Bool-cases (eq_ℤ c.state.cab k)) [
  | inl e ↦ rw e (
      load_first-IsWellFormed (record c { cabs = delete k c.cabs; order = without k c.order })
        (without k c.order) refl (left_over k t h) (λ j i. closed-Tabs k j t i))
  | inr e ↦ rw e (
      closed-Tabs k c.state.cab t (
        ground (
          arith,
          is_in-without c.state.cab k c.order,
          t.listed c.state.cab,
          t.selected_open,
          eq_ℤ_iff c.state.cab k,
          eq_ℤ_iff k c.state.cab,
        )))
]

two_of :
    (k : ℤ) (m : List (ℤ × CabRuntime))
    → contains_key k m ≡ true
    → (length m == 1) ≡ false
    → 2 ≤ length m
two_of k [] h n = unfold lookup in ground arith
two_of k (x ∷ m) h n = ground arith

pub remove_cab-IsWellFormed :
    (k : ℤ) (c : Controller) → IsWellFormed c → IsWellFormed (remove_cab k c).0
unfolding remove_cab
remove_cab-IsWellFormed k c t =
    let d = store_cab c in
    let u : IsWellFormed d = store_cab-Holds c t in
    elim (Bool-cases (contains_key k (store_cab c).cabs)) [
      | inr n ↦ rw n u
      | inl h ↦ elim (Bool-cases (length (store_cab c).cabs == 1)) [
        | inl e ↦ rw (h, e) u
        | inr e ↦ elim (Bool-cases (is_moving (runtime_of (store_cab c).cabs k))) [
          | inl g ↦ rw (h, e, g) u
          | inr g ↦ rw (h, e, g) (drop_cab-IsWellFormed k d u (two_of k d.cabs h e))
        ]
      ]
    ]

reassign-Holds :
    (old next : ℤ) (c : Controller)
    → IsWellFormed c
    → contains_key old c.cabs ≡ true
    → is_in next (keys c.cabs) ≡ false
    → Between (pos 1) next (pos 10293)
    → Holds (eq_ℤ old) (reassign old next c) × (is_in next (keys (reassign old next c).cabs) ≡ true)
unfolding reassign
reassign-Holds old next c t h n b =
    let r = renewed next (runtime_of c.cabs old) in
    (
      rename-Tabs t old next r (sym (contains_key-keys old c.cabs) ∙ h) n
          (unfold renewed new_runtime new_cab in refl) b,
      ground
          (arith, keys-insert next r c.cabs, is_in-append next next (keys c.cabs), eq_ℤ_refl next),
    )

forget_cab-IsWellFormed :
    (old next : ℤ) (r : Controller × Option Error)
    → Holds (eq_ℤ old) r.0
    → r.0.state.cab ≡ next
    → eq_ℤ old next ≡ false
    → IsWellFormed (forget_cab old r).0
unfolding forget_cab
forget_cab-IsWellFormed old next r t e n = delete-Tabs old t (ap (eq_ℤ old) e ∙ n)

replace_stored-IsWellFormed :
    (old next : ℤ) (cmd : Bytes) (c : Controller)
    → IsWellFormed c
    → eq_ℤ old next ≡ false
    → encode_loco_request next ≡ ok cmd
    → is_in next (keys c.cabs) ≡ false
    → IsWellFormed (replace_stored old next c).0
unfolding replace_stored
replace_stored-IsWellFormed old next cmd c t d e n = elim (Bool-cases (contains_key old c.cabs)) [
  | inr o ↦ rw o t
  | inl o ↦ elim (Bool-cases (is_moving (runtime_of c.cabs old))) [
    | inl g ↦ rw (o, g) t
    | inr g ↦
        let (u, i) = reassign-Holds old next c t o n (allowed_of next cmd e) in
        let (v, k) = focus_opened next cmd (reassign old next c) e i u in
        rw (o, g) (forget_cab-IsWellFormed old next (focus_cab next (reassign old next c)) v k d)
  ]
]

pub replace_cab-IsWellFormed :
    (old next : ℤ) (c : Controller) → IsWellFormed c → IsWellFormed (replace_cab old next c).0
unfolding replace_cab
replace_cab-IsWellFormed old next c t = elim (Bool-cases (eq_ℤ old next)) [
  | inl d ↦ rw d t
  | inr d ↦ elim (Result-cases (encode_loco_request next)) [
    | inr (x, e) ↦ rw (d, e) t
    | inl (cmd, e) ↦ elim (Bool-cases (contains_key next c.cabs)) [
      | inl n ↦ rw (d, e, n) t
      | inr n ↦
          rw (d, e, n)
            (replace_stored-IsWellFormed old next cmd (store_cab c) (store_cab-Holds c t) d e
              (ap (is_in next) (keys-store_cab c t) ∙ sym (contains_key-keys next c.cabs) ∙ n))
    ]
  ]
]
