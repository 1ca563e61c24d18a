-- ===== src/Client/Shutdown.antt =====
-- dccex/client/client.go: that a client is shut down at most once, and stays so.
pub mod Cause
use go_dcc_ex_driver.Base.{ℕ, ◌≡◌, Bool, true, false, List, [], length, Error}
use go_dcc_ex_driver.Client.{Client}
use go_dcc_ex_driver.Client.Machine.{closes}

abbrev Once : Bool → ℕ → List (List Error) → Type 0
Once true k causes = (k ≡ 1) × (length causes ≡ 1)
Once false k causes = (k ≡ 0) × (causes ≡ [])

-- What a shutdown has settled does not change.
abbrev Stays : Client → Client → Type 0
Stays c d =
    (d.done ≡ true) × (d.closes ≡ c.closes) × (d.lifetimes ≡ c.lifetimes) × (d.begun ≡ c.begun)

-- A step either leaves the shutdown alone or is one: `b` is `done` before it.
abbrev Moves : Bool → Client → Client → Type 0
Moves true c d = Stays c d
Moves false c d = Once d.done d.closes d.lifetimes

abbrev IsMove : Client → Client → Type 0
IsMove c d = (b : Bool) → c.done ≡ b → Once b c.closes c.lifetimes → Moves b c d
