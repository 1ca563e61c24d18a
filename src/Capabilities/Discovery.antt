-- ===== src/Capabilities/Discovery.antt =====
-- dccex/capabilities/discovery.go: one query at a time, its answer matched by an attempt token.
pub mod Machine
pub mod Answers
use go_dcc_ex_driver.Base.{
  ℕ, ◌+◌, ◌%◌, ◌^◌, Bool, true, false, not, ◌&&◌, ◌||◌, Option, none, some, ltb, ◌==◌,
  if◌then◌else◌, ℤ, pos, pos_part, ltb_ℤ, Bytes, codes, Error, message, Result, ok, err,
}
use go_dcc_ex_driver.Capabilities.Catalog.{
  Catalog, CatalogError, empty_catalog, validate, supports, clone,
}

pub data Status : Type 0 where
  not_requested pending available unsupported inconclusive invalid_response : Status

pub record Snapshot : Type 0 where
  pub status : Status
  pub catalog : Catalog

-- `Snapshot{Status: s}`
abbrev pub bare : Status → Snapshot
bare s = record { status = s; catalog = empty_catalog }

abbrev pub is_pending : Status → Bool
is_pending pending = true
is_pending _ = false

abbrev pub is_available : Status → Bool
is_available available = true
is_available _ = false

unfoldable pub snapshot_supports : Snapshot → ℕ → Bytes → ℕ → Bool
snapshot_supports s schema id version =
    is_available s.status && supports s.catalog schema id version

-- Times are nanoseconds; `time.Time{}` is 0.
pub record Discovery : Type 0 where
  pub current : Snapshot
  pub attempt : ℕ  -- uint64
  pub deadline : ℕ

-- The zero value of a `Discovery`.
abbrev pub new_discovery : Discovery
new_discovery = record { current = bare not_requested; attempt = 0; deadline = 0 }

unfoldable pub snapshot : Discovery → Snapshot
snapshot d = record { status = d.current.status; catalog = clone d.current.catalog }

unfoldable pub begin : Discovery → ℕ → ℤ → Discovery × Result ℕ
begin d now timeout =
    if not (ltb_ℤ (pos 0) timeout)
    then (d, err (message (codes "capability discovery timeout must be positive")))
    else if is_pending d.current.status
    then (d, err (message (codes "capability discovery is already pending")))
    else (
      record {
        current = bare pending;
        attempt = (d.attempt + 1) % 2 ^ 64;
        deadline = now + pos_part timeout;
      },
      ok ((d.attempt + 1) % 2 ^ 64),
    )

unfoldable pub expire : Discovery → ℕ → Discovery × Bool
expire d now =
    if not (is_pending d.current.status) || ltb now d.deadline
    then (d, false)
    else (record d { current = bare inconclusive }, true)

-- The method `pending`.
unfoldable pub still_pending : Discovery → ℕ → ℕ → Discovery × Bool
unfolding expire
still_pending d attempt now =
    if not (is_pending d.current.status) || not (attempt == d.attempt)
    then (d, false)
    else let (d', expired) = expire d now in (d', not expired)

accepted : Discovery → Catalog → Option CatalogError → Discovery × Bool × Option CatalogError
accepted d catalog (some e) = (record d { current = bare invalid_response }, true, some e)
accepted d catalog none =
    (record d { current = record { status = available; catalog = clone catalog } }, true, none)

unfoldable pub accept : Discovery → ℕ → Catalog → ℕ → Discovery × Bool × Option CatalogError
unfolding still_pending accepted
accept d attempt catalog now =
    let (d', live) = still_pending d attempt now in
    if live then accepted d' catalog (validate catalog) else (d', false, none)

unfoldable pub reject : Discovery → ℕ → ℕ → Discovery × Bool
unfolding still_pending
reject d attempt now =
    let (d', live) = still_pending d attempt now in
    if live then (record d' { current = bare unsupported }, true) else (d', false)

unfoldable pub reset : Discovery → Discovery
reset d = record { current = bare not_requested; attempt = d.attempt; deadline = 0 }
