-- ===== src/Config/Throttles.antt =====
-- config/throttles.go: the saved tabs and their validation.
pub mod Valid
use go_dcc_ex_driver.Base.{
  Bool, false, ◌||◌, not, List, [], ◌∷◌, ◌++◌, Option, none, some, if◌then◌else◌, replicate, ℤ, pos,
  ltb_ℤ, eq_ℤ, is_in, is_empty, Bytes, codes, format_ℤ, Error, message,
}
use go_dcc_ex_driver.Config.DisplayName.{validate_display_name}

pub record ThrottleTab : Type 0 where
  pub address : ℤ
  pub name : Bytes
  pub labels : List Bytes  -- [29]string
  pub toggle : Option (List Bool)  -- *[29]bool
  pub hidden : List Bool  -- [29]bool

pub record ThrottleSettings : Type 0 where
  pub version : ℤ
  pub tabs : List ThrottleTab
  pub selected : ℤ

unfoldable pub default_throttles : ThrottleSettings
default_throttles = record {
  version = pos 1;
  tabs =
      record {
        address = pos 3;
        name = [];
        labels = replicate 29 [];
        toggle = none;
        hidden = replicate 29 false;
      }
      ∷ [];
  selected = pos 3;
}

-- The loop over the labels of a tab.
unfoldable pub check_labels : List Bytes → Option Error
check_labels [] = none
check_labels (l ∷ ls) =
    let rest = check_labels ls in elim (validate_display_name l) [ some e ↦ some e | none ↦ rest ]

-- The test of a tab's address.
unfoldable pub bad_address : List ℤ → ℤ → Bool
bad_address seen a = ltb_ℤ a (pos 1) || ltb_ℤ (pos 10293) a || is_in a seen

unfoldable pub address_error : ℤ → Error
address_error a = message (codes "invalid or duplicate saved locomotive address " ++ format_ℤ a)

-- The loop over the tabs, with the addresses seen so far; the last test is of the selected one.
unfoldable pub validate_tabs : ℤ → List ℤ → List ThrottleTab → Option Error
unfolding bad_address check_labels
validate_tabs selected seen [] =
    if is_in selected seen
    then none
    else some (message (codes "selected throttle is not in the saved tabs"))
validate_tabs selected seen (tab ∷ tabs) =
    let rest = validate_tabs selected (tab.address ∷ seen) tabs in
    elim (validate_display_name tab.name) [
      | some e ↦ some e
      | none ↦ elim (check_labels tab.labels) [
        | some e ↦ some e
        | none ↦ if bad_address seen tab.address then some (address_error tab.address) else rest
      ]
    ]

unfoldable pub validate_settings : ThrottleSettings → Option Error
unfolding validate_tabs
validate_settings s =
    if not (eq_ℤ s.version (pos 1))
    then some (message (codes "unsupported throttle settings version " ++ format_ℤ s.version))
    else if is_empty s.tabs
    then some (message (codes "keep at least one saved throttle"))
    else validate_tabs s.selected [] s.tabs
