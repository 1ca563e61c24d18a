-- ===== src/Client/Shutdown/Cause.antt =====
-- dccex/client/client.go: the cause with which a client is shut down.
use go_dcc_ex_driver.Base.{
  ◌≡◌, refl, ap, ◌∙◌, Bool, true, false, List, [], ◌∷◌, ◌++◌, append_assoc, Option, none, some,
  codes, message, Error,
}
use go_dcc_ex_driver.Client.{Conn, Client, present, close_unless, close_with_cause}
use go_dcc_ex_driver.Client.Machine.{Step, returns, times_out, Reach, opened}

-- The errors that are there, in their order.
abbrev pub all_of : List (Option Error) → List Error
all_of [] = []
all_of (none ∷ rest) = all_of rest
all_of (some e ∷ rest) = e ∷ all_of rest

-- Why a step shuts the client down, if it does: the error of a `Write`, or that one took too long. A
-- caller of `Close` and the reader's deferred `Close` give no cause.
abbrev pub cause_of : {conn : Conn} {c d : Client} → Step conn c d → Option Error
cause_of (returns e s p) = e
cause_of (times_out s) = some (message (codes "command write timed out"))
cause_of _ = none

-- What the lifetime ends with: the cause, the error that ended the reading, and that of `conn.Close`.
abbrev pub errors_of : Conn → Client → Option Error → List Error
errors_of conn c cause = all_of (cause ∷ c.read_cause ∷ conn.on_close ∷ [])

abbrev IsCaused : Conn → Client → Option Error → Client → Type 0
IsCaused conn c cause d =
    c.done ≡ false → c.lifetimes ≡ [] → d.done ≡ true → d.lifetimes ≡ errors_of conn c cause ∷ []

-- The shutdown behind an update of other fields.
behind :
    (conn : Conn) (c before : Client) (cause : Option Error) (d : Client)
    → before.done ≡ c.done
    → before.lifetimes ≡ c.lifetimes
    → before.read_cause ≡ c.read_cause
    → IsCaused conn before cause d
    → IsCaused conn c cause d
behind conn c before cause d p q r caused o l shut =
    caused (p ∙ o) (q ∙ l) shut ∙ ap (λ e. all_of (cause ∷ e ∷ conn.on_close ∷ []) ∷ []) r

present-all_of :
    (o : Option Error) (rest : List (Option Error)) → present o ++ all_of rest ≡ all_of (o ∷ rest)
present-all_of none rest = refl
present-all_of (some e) rest = refl

joined : (a b c : Option Error) → present a ++ present b ++ present c ≡ all_of (a ∷ b ∷ c ∷ [])
joined a b none =
    append_assoc (present a) (present b) []
    ∙ ap (◌++◌ (present a)) (present-all_of b (none ∷ []))
    ∙ present-all_of a (b ∷ none ∷ [])
joined a b (some e) =
    append_assoc (present a) (present b) (e ∷ [])
    ∙ ap (◌++◌ (present a)) (present-all_of b (some e ∷ []))
    ∙ present-all_of a (b ∷ some e ∷ [])

caused_unless :
    (b : Bool) (conn : Conn) (cause : Option Error) (c : Client)
    → b ≡ false
    → c.lifetimes ≡ []
    → (close_unless b conn cause c).0.lifetimes ≡ errors_of conn c cause ∷ []
unfolding close_unless
caused_unless true conn cause c o l = absurd (cc)
caused_unless false conn cause c o l =
    ap (λ es. es ∷ c.lifetimes) (joined cause c.read_cause conn.on_close)
    ∙ ap (λ rest. errors_of conn c cause ∷ rest) l

caused :
    (conn : Conn) (cause : Option Error) (c : Client)
    → IsCaused conn c cause (close_with_cause conn cause c).0
unfolding close_with_cause
caused conn cause c o l shut = caused_unless c.done conn cause c o l

-- The step that shut a client down, between two states on its way, and that its lifetime ended once,
-- with the errors that there were at that step.
pub record IsShutBy (conn : Conn) (c : Client) : Type 0 where
  pub before : Client
  pub behind_it : Client
  pub shutdown : Step conn before behind_it
  pub way : Reach conn opened before
  pub first : before.done ≡ false
  pub since : Reach conn behind_it c
  pub ended : c.lifetimes ≡ errors_of conn before (cause_of shutdown) ∷ []
