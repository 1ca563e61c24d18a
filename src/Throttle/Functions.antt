-- ===== src/Throttle/Functions.antt =====
-- throttle/controller.go: the function buttons F0 to F28, programming and raw commands.
use go_dcc_ex_driver.Base.{
  ℕ, suc, ◌+◌, ◌*◌, ◌/◌, ◌%◌, Bool, true, false, not, ◌&&◌, List, [], ◌∷◌, ◌++◌, none, some,
  if◌then◌else◌, get_or, set, is_empty, ℤ, pos, pos_part, ltb_ℤ, Bytes, codes, has_prefix,
  trim_space, Error, message, insert,
}
use go_dcc_ex_driver.Protocol.Command.{
  encode_power, encode_function, encode_read_address, encode_write_address, encode_program_on_main,
}
use go_dcc_ex_driver.Throttle.State.{Controller, Action, ◌>>◌, modify, done}
use go_dcc_ex_driver.Throttle.Link.{send, command}
use go_dcc_ex_driver.Throttle.Cabs.{runtime_of}

unfoldable pub valid_function : ℤ → Bool
valid_function n = not (ltb_ℤ n (pos 0)) && ltb_ℤ n (pos 29)

abbrev pub function_error : Error
function_error = message (codes "function must be F0-F28")

unfoldable pub set_mode : ℤ → Bool → Controller → Controller
set_mode n on c = record c {
  state = record c.state { toggle = set c.state.toggle (pos_part n) on };
}

unfoldable pub set_toggle : ℤ → Bool → Action
unfolding set_mode
set_toggle n on c =
    if not (valid_function n) then (c, some function_error) else (set_mode n on c, none)

-- A release of a button that is held is momentary, also if the mode was changed meanwhile.
unfoldable pub acts_as_toggle : ℤ → Bool → Controller → Bool
acts_as_toggle n pressed c =
    get_or c.state.toggle (pos_part n) false
    && not (get_or (runtime_of c.cabs c.state.cab).held (pos_part n) false && not pressed)

unfoldable pub set_held : ℤ → Bool → Controller → Controller
set_held n held c =
    let r = runtime_of c.cabs c.state.cab in
    record c { cabs = insert c.state.cab (record r { held = set r.held (pos_part n) held }) c.cabs }

unfoldable pub set_function : ℤ → Bool → Controller → Controller
set_function n on c = record c {
  state = record c.state { functions = set c.state.functions (pos_part n) on };
}

abbrev pub bit : Bool → ℤ
bit on = if on then pos 1 else pos 0

-- `Function` behind its tests: the new state of the function and whether its button is a toggle.
unfoldable pub switch : ℤ → Bool → Bool → Bool → Action
unfolding set_held set_function
switch n pressed toggle on c =
    (do
      command (encode_function c.state.cab n (bit on))
      modify (set_held n (pressed && not toggle))
      modify (λ c'. if toggle then set_function n on c' else c'))
      c

unfoldable pub function : ℤ → Bool → Action
unfolding switch acts_as_toggle
function n pressed c =
    let toggle = acts_as_toggle n pressed c in
    if not (valid_function n)
    then (c, some function_error)
    else if toggle && not pressed
    then (c, none)
    else switch n pressed toggle
        (if toggle then not (get_or c.state.functions (pos_part n) false) else pressed) c

-- The loop over the functions as they were; the first argument is the index.
unfoldable pub functions_off : ℕ → List Bool → Action
unfolding set_function
functions_off n [] = done
functions_off n (true ∷ rest) =
    (λ c. command (encode_function c.state.cab (pos n) (pos 0)) c)
    >> modify (set_function (pos n) false)
    >> functions_off (suc n) rest
functions_off n (false ∷ rest) = functions_off (suc n) rest

unfoldable pub all_functions_off : Action
unfolding functions_off
all_functions_off c = functions_off 0 c.state.functions c

abbrev pub show_result : Bytes → Controller → Controller
show_result text c = record c { state = record c.state { program_result = text } }

unfoldable pub power : Bool → Bytes → Action
power on track = command (encode_power on track)

unfoldable pub read_address : Action
read_address = send encode_read_address false >> modify (show_result (codes "reading address..."))

unfoldable pub write_address : ℤ → Action
write_address address =
    command (encode_write_address address) >> modify (show_result (codes "writing address..."))

unfoldable pub pom : ℤ → ℤ → ℤ → Action
pom cab cv value = command (encode_program_on_main cab cv value)

-- `low & 0x3f` keeps six bits, `& 0xc0` the two above them.
unfoldable pub edit_cv29 : ℕ → Controller → Controller
edit_cv29 low c = record c {
  state = record c.state { cv29 = c.state.cv29 / 64 % 4 * 64 + low % 64 };
}

-- A text without an opening bracket is put in brackets.
unfoldable pub raw_command : Bytes → Bytes
raw_command text = if has_prefix text (codes "<") then text else codes "<" ++ (text ++ codes ">")

unfoldable pub raw : Bytes → Action
raw text c =
    let trimmed = trim_space text in
    if is_empty trimmed then (c, none) else send (raw_command trimmed) false c
