-- ===== src/Base/Errors.antt =====
-- A Go result `(A, error)`, with the errors that the protocol and the controller make.
use mathlib.Core.Path.{Path, ◌≡◌, refl, ap}
use mathlib.Core.Logic.{◌⊎◌, inl, inr}
use mathlib.Core.Bool.{Bool, true, false}
use native.Mathlib.Omega.{arith}
use go_dcc_ex_driver.Base.Tests.{if◌then◌else◌}
use go_dcc_ex_driver.Base.Int.{ℤ}
use go_dcc_ex_driver.Base.Text.{Bytes}

-- A constructor for each error of the source, with the values that its text shows.
pub data Error : Type 0 where
  malformed frame_too_large truncated out_of_range : Error
  -- `inRange`: the field, its value and the bounds
  range : Bytes → ℤ → ℤ → ℤ → Error
  -- `number`: a field that is no number, and one that is out of range, with its text
  not_number : Bytes → Error
  number_range : Bytes → Bytes → Error
  -- `EncodePower`
  bad_track : Bytes → Error
  -- `parseCurrent`
  current_reply : Error → Error
  -- `errors.New` with this text
  message : Bytes → Error

-- A call's second result is nil exactly for `ok`.
pub data Result {ℓ} (R : Type ℓ) : Type ℓ where
  err : Error → Result R
  ok : R → Result R

infixl 5 ◌>>=◌
-- `if err != nil { return nil, err }` between a call and the rest.
abbrev pub ◌>>=◌ {ℓ κ} : {R : Type ℓ} {S : Type κ} → Result R → (R → Result S) → Result S
err problem >>= rest = err problem
ok value >>= rest = rest value

infixl 5 ◌>>◌
-- The same for a check, which returns nothing but its error.
abbrev pub ◌>>◌ {ℓ} : {S : Type ℓ} → Result (Unit {0}) → Result S → Result S
check >> rest = check >>= λ _. rest

-- `if bad { return nil, e }`
abbrev pub fail_if : Bool → Error → Result (Unit {0})
fail_if true e = err e
fail_if false e = ok tt

pub Result-cases {ℓ} :
    {R : Type ℓ} (r : Result R) → ((a : R) × (r ≡ ok a)) ⊎ ((e : Error) × (r ≡ err e))
Result-cases (ok a) = inl (a, refl)
Result-cases (err e) = inr (e, refl)

pub both_ok {ℓ} :
    {S : Type ℓ} (check : Result (Unit {0})) (rest : Result S) (a : S)
    → (check >> rest) ≡ ok a
    → (check ≡ ok tt) × (rest ≡ ok a)
both_ok (ok tt) rest a h = (refl, h)
both_ok (err e) rest a h = ground arith

pub else_ok {ℓ} :
    {S : Type ℓ} (b : Bool) (e : Error) (rest : Result S) (a : S)
    → (if b then err e else rest) ≡ ok a
    → (b ≡ false) × (rest ≡ ok a)
else_ok true e rest a h = ground arith
else_ok false e rest a h = (refl, h)

pub then_ok {ℓ} :
    {S : Type ℓ} (b : Bool) (e : Error) (rest : Result S) (a : S)
    → (if b then rest else err e) ≡ ok a
    → (b ≡ true) × (rest ≡ ok a)
then_ok true e rest a h = (refl, h)
then_ok false e rest a h = ground arith

pub bind_ok {ℓ κ} :
    {R : Type ℓ} {S : Type κ} (r : Result R) (f : R → Result S) (b : S)
    → (r >>= f) ≡ ok b
    → (a : R) × (r ≡ ok a) × (f a ≡ ok b)
bind_ok (ok a) f b h = (a, refl, h)
bind_ok (err e) f b h = ground arith

pub either_ok {ℓ κ} :
    {S : Type ℓ} {P : Type κ} (b : Bool) (r s : Result S) (a : S)
    → (if b then r else s) ≡ ok a
    → (b ≡ true → r ≡ ok a → P)
    → (s ≡ ok a → P)
    → P
either_ok true r s a h f g = f refl h
either_ok false r s a h f g = g h

pub err_ok {ℓ κ} :
    {S : Type ℓ} {P : Type κ} (e : Error) (a : S) → Path (Result S) (err e) (ok a) → P
err_ok e a h = ground arith

value_or {ℓ} : {S : Type ℓ} → S → Result S → S
value_or d (ok a) = a
value_or d (err e) = d

pub ok-injective {ℓ} : {S : Type ℓ} (a b : S) → Path (Result S) (ok a) (ok b) → a ≡ b
unfolding value_or
ok-injective a b h = ap (value_or a) h
