-- ===== src/Slots/Waiting.antt =====
-- The loop of `query_slot`: poll until admitted, until Redis fails, or until the deadline.
use dbbuddy.Base.{
  ℕ, zero, suc, ◌+◌, ◌-◌, ◌≤◌, ◌<◌, ◌≡◌, ◌≢◌, refl, inl, inr, Bool, true, false, leb, leb→lt,
  if◌then◌else◌, arith, Bool-cases, leb→lt,
}
use native.Mathlib.Decide.{dec_lt}

-- How one call of `acquire` ends; `unavailable` is an exception.
pub data Poll : Type 0 where
  admitted refused unavailable : Poll

-- How the wait ends: in a slot of the shared count, in one of the local semaphore, in an `ERPBusy`,
-- or, in the model alone, without fuel.
pub data Outcome : Type 0 where
  shared_slot local_slot busy out_of_fuel : Outcome

-- Whether the block's end releases the shared slot.
unfoldable pub releases_shared : Outcome → Bool
releases_shared shared_slot = true
releases_shared _ = false

-- The n-th poll has the outcome `polls n`, and the clock reads `times n` after it. The semaphore is
-- asked with the time that is left.
module _ (polls : ℕ → Poll) (times : ℕ → ℕ) (semaphore : ℕ → Bool) (deadline : ℕ) where
  unfoldable pub fall_back : ℕ → Outcome
  fall_back n = if semaphore (deadline - times n) then local_slot else busy

  unfoldable pub wait : ℕ → ℕ → Outcome
  unfolding fall_back
  wait zero n = out_of_fuel
  wait (suc fuel) n =
      let again = wait fuel (suc n) in
      elim (polls n) [
        | admitted ↦ shared_slot
        | unavailable ↦ fall_back n
        | refused ↦ if leb deadline (times n) then busy else again
      ]

  -- The polls from `n` up to `m` were refused, each before the deadline.
  abbrev pub RefusedBefore : ℕ → ℕ → Type 0
  RefusedBefore n m = (j : ℕ) → n ≤ j → j < m → (polls j ≡ refused) × (times j < deadline)

  -- Where the clock moves on between polls, the wait ends, after at most as many further polls as
  -- there are clock values up to the deadline.
  pub wait-ne-out_of_fuel :
      ((n : ℕ) → times n < times (suc n))
      → (fuel n : ℕ) → deadline ≤ times n + fuel
      → wait (suc fuel) n ≢ out_of_fuel
  unfolding wait
  wait-ne-out_of_fuel moves zero n h = ground arith
  wait-ne-out_of_fuel moves (suc fuel) n h =
      ground (arith, wait-ne-out_of_fuel moves fuel (suc n), moves n)

  later-refused :
      (n m : ℕ)
      → polls n ≡ refused
      → times n < deadline
      → RefusedBefore (suc n) m
      → RefusedBefore n m
  later-refused n m r l h j le lt = elim (dec_lt n j) [
    | yes p ↦ h j (omega arith) lt
    | no p ↦ let e : j ≡ n = omega arith in rw e (r, l)
  ]

  fall_back-ne-shared_slot : (n : ℕ) → fall_back n ≢ shared_slot
  unfolding fall_back
  fall_back-ne-shared_slot n = ground arith

  -- A caller is in a slot of the shared count only after an admission, and each poll before that was
  -- refused while the deadline had not passed.
  pub wait-shared_slot :
      (fuel n : ℕ) → wait fuel n ≡ shared_slot → (m : ℕ) × (polls m ≡ admitted) × RefusedBefore n m
  unfolding wait
  wait-shared_slot zero n h = cc
  wait-shared_slot (suc fuel) n h = go (polls n) refl (wait-shared_slot fuel (suc n)) h
    where
      go :
          (p : Poll)
          → polls n ≡ p
          → (wait fuel (suc n) ≡ shared_slot
              → (m : ℕ) × (polls m ≡ admitted) × RefusedBefore (suc n) m)
          → (elim p [
            | admitted ↦ shared_slot
            | unavailable ↦ fall_back n
            | refused ↦ if leb deadline (times n) then busy else wait fuel (suc n)
          ])
            ≡ shared_slot
          → (m : ℕ) × (polls m ≡ admitted) × RefusedBefore n m
      go admitted e later k = (n, e, λ j le lt. absurd (omega arith))
      go unavailable e later k = absurd (fall_back-ne-shared_slot n k)
      go refused e later k = elim (Bool-cases (leb deadline (times n))) [
        | inl b ↦ absurd (ground (arith, b, k))
        | inr b ↦
            let ih = later (ground (arith, b, k)) in
            (ih.0, ih.1, later-refused n ih.0 e (leb→lt deadline (times n) b) ih.2)
      ]
