-- ===== src/Throttle/Programming.antt =====
-- throttle/cv.go: the names of configuration variables, and throttle/controller.go: reading and
-- writing them.
use go_dcc_ex_driver.Base.{
  ℕ, ◌-◌, Bool, ◌&&◌, List, [], ◌∷◌, ◌++◌, none, some, if◌then◌else◌, is_empty, ℤ, pos, pos_part,
  ltb_ℤ, not, Bytes, codes, format_ℕ, format_ℤ, lookup, ◌≡◌, refl,
}
use go_dcc_ex_driver.Protocol.Command.{encode_read_cv, encode_write_cv}
use go_dcc_ex_driver.Throttle.State.{Action, ◌>>◌, modify}
use go_dcc_ex_driver.Throttle.Link.{command}
use go_dcc_ex_driver.Throttle.Functions.{show_result}

unfoldable pub cv_names : List (ℤ × Bytes)
cv_names =
    (pos 1, codes "Primary (short) address")
    ∷ (pos 2, codes "Vstart -- motor start voltage")
    ∷ (pos 3, codes "Acceleration rate")
    ∷ (pos 4, codes "Deceleration rate")
    ∷ (pos 5, codes "Vhigh -- top speed voltage")
    ∷ (pos 6, codes "Vmid -- mid speed voltage")
    ∷ (pos 7, codes "Manufacturer version, read-only")
    ∷ (pos 8, codes "Manufacturer ID -- writing it resets many decoders")
    ∷ (pos 17, codes "Extended address high byte")
    ∷ (pos 18, codes "Extended address low byte")
    ∷ (pos 19, codes "Consist address")
    ∷ (pos 21, codes "Consist functions F1-F8")
    ∷ (pos 22, codes "Consist functions FL, F9-F12")
    ∷ (pos 23, codes "Acceleration adjustment")
    ∷ (pos 24, codes "Deceleration adjustment")
    ∷ (pos 28, codes "RailCom configuration")
    ∷ (pos 29, codes "Configuration data #1")
    ∷ (pos 30, codes "Error information")
    ∷ (pos 65, codes "Kick start")
    ∷ (pos 66, codes "Forward trim")
    ∷ (pos 95, codes "Reverse trim")
    ∷ (pos 105, codes "User ID #1")
    ∷ (pos 106, codes "User ID #2")
    ∷ []

between : ℤ → ℕ → ℕ → Bool
between n lo hi = not (ltb_ℤ n (pos lo)) && not (ltb_ℤ (pos hi) n)

-- The ranges of `CVName`.
name_by_range : ℤ → Bytes
unfolding between
name_by_range cv =
    if between cv 33 46
    then codes "Function output mapping"
    else if between cv 67 94
    then codes "Speed table entry " ++ (format_ℕ (pos_part cv - 66) ++ codes "/28")
    else if between cv 112 256
    then codes "Manufacturer-specific"
    else []

unfoldable pub cv_name : ℤ → Bytes
unfolding name_by_range
cv_name cv = elim (lookup cv cv_names) [ some name ↦ name | none ↦ name_by_range cv ]

unfoldable pub cv_description : ℤ → Bytes
cv_description cv =
    codes "CV "
    ++ (format_ℤ cv
        ++ (if is_empty (cv_name cv) then [] else codes " (" ++ (cv_name cv ++ codes ")")))

unfoldable pub read_cv : ℤ → Action
read_cv cv =
    command (encode_read_cv cv)
    >> modify (show_result (codes "reading " ++ (cv_description cv ++ codes "...")))

unfoldable pub write_cv : ℤ → ℤ → Action
write_cv cv value =
    command (encode_write_cv cv value)
    >> modify (show_result (codes "writing " ++ (cv_description cv ++ codes "...")))

unfoldable pub write_cv29 : Action
write_cv29 c = write_cv (pos 29) (pos c.state.cv29) c

speed_table : cv_description (pos 70) ≡ codes "CV 70 (Speed table entry 4/28)"
unfolding cv_description cv_name cv_names lookup codes format_ℤ
speed_table = refl
