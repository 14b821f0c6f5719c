-- ===== src/Limits/Connections.antt =====
-- src/runtime_limits.rs: `ConnectionLimit` and `ConnectionPermit`. Each operation is one atomic
-- change of the counter, so a concurrent run is a sequence of them.
use whaletracker.Prelude.{ℕ, ◌+◌, Option, none, some, ltb, if◌then◌else◌, wrapping_sub}

pub record ConnectionLimit : Type 0 where
  pub active : ℕ
  pub maximum : ℕ

-- `none` is the panic of the assertion.
unfoldable pub new_limit : ℕ → Option ConnectionLimit
new_limit maximum = if ltb 0 maximum then some (record { active = 0; maximum = maximum }) else none

-- `some` is a permit, with the counter that `fetch_update` leaves.
unfoldable pub try_acquire : ConnectionLimit → Option ConnectionLimit
try_acquire limit =
    if ltb limit.active limit.maximum
    then some (record limit { active = limit.active + 1 })
    else none

-- `Drop` of a permit: `fetch_sub` wraps around.
unfoldable pub release : ConnectionLimit → ConnectionLimit
release limit = record limit { active = wrapping_sub limit.active 1 }
