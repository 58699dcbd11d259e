-- ===== src/Guard/Cap.antt =====
-- The cap of one process while the shared window is lost.
use dbbuddy.Base.{ℕ, ◌+◌, ◌-◌, ◌*◌, ◌/◌, ◌%◌, zero, suc, ◌≡◌, ◌≤◌, ◌<◌, arith}
use native.Mathlib.Omega.{div_any}
use native.Mathlib.Decide.{dec_lt}
use Prim.Native.Nat.{max}
use dbbuddy.Guard.{local_cap}

one_le_quotient : (m w q r : ℕ) → 0 < m → 0 < w → r < w → w * q + r ≡ m + (w - 1) → 1 ≤ q
one_le_quotient m w zero r hm hw hr h = omega arith
one_le_quotient m w (suc q) r hm hw hr h = omega arith

product_too_large : (m w q r : ℕ) → 0 < w → m < q → w * q + r ≡ m + (w - 1) → ⊥
product_too_large m w q r hw h e = grind arith

quotient_le : (m w q r : ℕ) → 0 < m → 0 < w → w * q + r ≡ m + (w - 1) → q ≤ m
quotient_le m w q r hm hw h = elim (dec_lt m q) [
  | no p ↦ omega arith
  | yes p ↦ absurd (product_too_large m w q r hw p h)
]

-- Where there is at least one worker and at least one attempt is configured: together the workers
-- allow at least the configured number of attempts and fewer than that and one more each, and no
-- worker alone allows more than that number.
pub local_cap-bounds :
    (workers max_attempts : ℕ)
    → 0 < workers
    → 0 < max_attempts
    → (max_attempts ≤ workers * local_cap workers max_attempts)
      × (workers * local_cap workers max_attempts < max_attempts + workers)
      × (local_cap workers max_attempts ≤ max_attempts)
unfolding local_cap
local_cap-bounds workers max_attempts h k =
    let q = (max_attempts + (workers - 1)) / workers in
    let r = (max_attempts + (workers - 1)) % workers in
    let e : workers * q + r ≡ max_attempts + (workers - 1) =
      div_any (max_attempts + (workers - 1)) workers in
    let small : r < workers = omega arith in
    let one : 1 ≤ q = one_le_quotient max_attempts workers q r k h small e in
    let same : max 1 q ≡ q = omega arith in
    rw same (omega arith, omega arith, quotient_le max_attempts workers q r k h e)
