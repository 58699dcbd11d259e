-- ===== src/Slots.antt =====
-- dbbuddy_core/erp_concurrency.py: the ceiling on concurrent queries against one target database.
-- Times are in one unit throughout, fine enough that clock readings are whole; `_lock` and logging
-- have no part in the result.
pub mod Redis
pub mod System
pub mod Waiting
mod Examples
use dbbuddy.Base.{ℕ, ◌+◌, ◌≤◌, ◌<◌, ◌≡◌, Bool, true, false, leb, ltb, if◌then◌else◌, String, arith}
use Prim.Native.Nat.{max}
use dbbuddy.Slots.Redis.{SortedSets}

pub record Settings : Type 0 where
  pub statement_timeout : ℕ
  pub slot_lease : ℕ
  pub lease_margin : ℕ
  pub lease_floor : ℕ

unfoldable pub lease_seconds : Settings → ℕ
lease_seconds s =
    if ltb 0 s.statement_timeout
    then max s.lease_floor (s.statement_timeout + s.lease_margin)
    else s.slot_lease

-- With a statement timeout, a query that starts at `start` and is over when the timeout has passed
-- is over, by the margin, before a lease taken at the start has run out; nor is any lease shorter
-- than the floor.
pub lease_seconds-covers :
    (s : Settings) (start over : ℕ)
    → 0 < s.statement_timeout
    → over ≤ start + s.statement_timeout
    → (over + s.lease_margin ≤ start + lease_seconds s) × (s.lease_floor ≤ lease_seconds s)
unfolding lease_seconds
lease_seconds-covers s start over h k = ground arith
