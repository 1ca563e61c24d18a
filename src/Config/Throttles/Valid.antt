-- ===== src/Config/Throttles/Valid.antt =====
-- Which saved tabs are accepted.
use go_dcc_ex_driver.Base.{
  ◌≡◌, ◌≢◌, ◌↔◌, refl, sym, ◌∙◌, is_empty_iff, arith, true, false, List, [], ◌∷◌, none, ◌||◌, is_in,
  Distinct, is_in_none, All, Between, ℤ, pos, eq_ℤ, eq_ℤ_iff, Bytes,
}
use go_dcc_ex_driver.Config.DisplayName.{validate_display_name}
use go_dcc_ex_driver.Config.Throttles.{
  ThrottleTab, ThrottleSettings, check_labels, bad_address, validate_tabs, validate_settings,
}

-- A name that the display accepts.
abbrev pub IsName : Bytes → Type 0
IsName name = validate_display_name name ≡ none

-- A tab with an address of the protocol and with names that the display accepts.
abbrev pub IsTab : ThrottleTab → Type 0
IsTab t = IsName t.name × All IsName t.labels × Between (pos 1) t.address (pos 10293)

abbrev pub addresses : List ThrottleTab → List ℤ
addresses [] = []
addresses (t ∷ ts) = t.address ∷ addresses ts

-- No address is among those seen before, and none comes twice.
abbrev IsFresh : List ℤ → List ThrottleTab → Type 0
IsFresh seen [] = Unit
IsFresh seen (t ∷ ts) = (is_in t.address seen ≡ false) × IsFresh (t.address ∷ seen) ts

-- What has been seen behind the tabs.
abbrev seen_after : List ℤ → List ThrottleTab → List ℤ
seen_after seen [] = seen
seen_after seen (t ∷ ts) = seen_after (t.address ∷ seen) ts

check_labels_iff : (ls : List Bytes) → (check_labels ls ≡ none) ↔ All IsName ls
unfolding check_labels
check_labels_iff [] = ground arith
check_labels_iff (l ∷ ls) = ground (arith, check_labels_iff ls)

validate_tabs_iff :
    (selected : ℤ) (seen : List ℤ) (ts : List ThrottleTab)
    → (validate_tabs selected seen ts ≡ none)
      ↔ (All IsTab ts × IsFresh seen ts × (is_in selected (seen_after seen ts) ≡ true))
unfolding validate_tabs bad_address
validate_tabs_iff selected seen [] = ground arith
validate_tabs_iff selected seen (t ∷ ts) =
    ground (arith, check_labels_iff t.labels, validate_tabs_iff selected (t.address ∷ seen) ts)

unseen_iff :
    (x : ℤ) (seen xs : List ℤ)
    → All (λ a. is_in a (x ∷ seen) ≡ false) xs
      ↔ (All (λ a. eq_ℤ a x ≡ false) xs × All (λ a. is_in a seen ≡ false) xs)
unfolding is_in
unseen_iff x seen [] = ground arith
unseen_iff x seen (a ∷ xs) = ground (arith, eq_ℤ_iff a x, eq_ℤ_iff x a, unseen_iff x seen xs)

IsFresh-iff :
    (seen : List ℤ) (ts : List ThrottleTab)
    → IsFresh seen ts ↔ (Distinct (addresses ts) × All (λ a. is_in a seen ≡ false) (addresses ts))
unfolding Distinct
IsFresh-iff seen [] = ground arith
IsFresh-iff seen (t ∷ ts) = ground (
  arith,
  IsFresh-iff (t.address ∷ seen) ts,
  unseen_iff t.address seen (addresses ts),
  is_in_none t.address (addresses ts),
)

pub All-unseen : (xs : List ℤ) → All (λ a. is_in a [] ≡ false) xs
unfolding is_in
All-unseen [] = tt
All-unseen (x ∷ xs) = (refl, All-unseen xs)

is_in-seen_after :
    (k : ℤ) (seen : List ℤ) (ts : List ThrottleTab)
    → is_in k (seen_after seen ts) ≡ (is_in k seen || is_in k (addresses ts))
unfolding is_in
is_in-seen_after k seen [] = ground arith
is_in-seen_after k seen (t ∷ ts) = ground (arith, is_in-seen_after k (t.address ∷ seen) ts)

accepted_iff :
    (s : ThrottleSettings)
    → (validate_settings s ≡ none) ↔ (
        (s.version ≡ pos 1)
        × (s.tabs ≢ [])
        × All IsTab s.tabs
        × IsFresh [] s.tabs
        × (is_in s.selected (seen_after [] s.tabs) ≡ true))
unfolding validate_settings
accepted_iff s =
    ground (
      arith,
      eq_ℤ_iff s.version (pos 1),
      is_empty_iff s.tabs,
      validate_tabs_iff s.selected [] s.tabs,
    )

found_iff : (k : ℤ) (ts : List ThrottleTab) → is_in k (seen_after [] ts) ≡ is_in k (addresses ts)
found_iff k ts = is_in-seen_after k [] ts ∙ (unfold is_in in refl)

-- What a layout promises: a version of this program, at least one tab, good tabs at pairwise different
-- addresses, and a selected one among them.
pub record IsLayout (s : ThrottleSettings) : Type 0 where
  pub version : s.version ≡ pos 1
  pub some_tab : s.tabs ≢ []
  pub good : All IsTab s.tabs
  pub distinct : Distinct (addresses s.tabs)
  pub selected : is_in s.selected (addresses s.tabs) ≡ true

-- Saved tabs are accepted exactly if their version is 1, there is a tab, each tab has an address of 1
-- to 10293 and names that can be displayed, no address comes twice, and the selected address is that
-- of a tab.
pub validate_settings_iff : (s : ThrottleSettings) → (validate_settings s ≡ none) ↔ IsLayout s
unfolding validate_settings
validate_settings_iff s =
    let (sound, complete) = accepted_iff s in
    let (split, join) = IsFresh-iff [] s.tabs in
    (
      λ h.
          let (v, n, g, f, e) = sound h in
          record {
            version = v;
            some_tab = n;
            good = g;
            distinct = (split f).0;
            selected = sym (found_iff s.selected s.tabs) ∙ e;
          },
      λ l. complete (
        l.version,
        l.some_tab,
        l.good,
        join (l.distinct, All-unseen (addresses s.tabs)),
        found_iff s.selected s.tabs ∙ l.selected,
      ),
    )
