-- ===== src/Guard/Window.antt =====
-- The local window: what it counts, when it locks a key, and when the lock ends.
use dbbuddy.Base.{
  ℕ, ◌+◌, ◌*◌, ◌≤◌, ◌<◌, ◌≡◌, ◌↔◌, refl, sym, ap, ◌∙◌, true, false, leb, leb→lt, ltb, if◌then◌else◌,
  none, some, List, [], ◌∷◌, ◌++◌, length, Holds, Text, arith, Bool-cases, inl, inr,
}
use dbbuddy.Guard.{second, window, Failures, local_cap, prune, local_retry, retry_after}

-- How many of the attempts are in the window that ends at `now`.
unfoldable pub recent : ℕ → List ℕ → ℕ
recent now [] = 0
recent now (t ∷ dq) = (if ltb now (t + window) then 1 else 0) + recent now dq

-- Oldest first, none later than `now`.
unfoldable pub InOrder : ℕ → List ℕ → Type 0
InOrder now [] = Unit
InOrder now (t ∷ dq) = (t ≤ now) × Holds (λ u. t ≤ u) dq × InOrder now dq

pub recent-append :
    (now : ℕ) (dq more : List ℕ) → recent now (dq ++ more) ≡ recent now dq + recent now more
unfolding recent
recent-append now [] more = omega arith
recent-append now (t ∷ dq) more = omega (arith, recent-append now dq more)

pub recent-prune :
    (now later : ℕ) (dq : List ℕ) → now ≤ later → recent later (prune now dq) ≡ recent later dq
unfolding recent prune
recent-prune now later [] h = refl
recent-prune now later (t ∷ dq) h = ground (arith, recent-prune now later dq h)

recent-later :
    (t now : ℕ) (dq : List ℕ) → now < t + window → Holds (λ u. t ≤ u) dq → recent now dq ≡ length dq
unfolding recent
recent-later t now [] h k = refl
recent-later t now (u ∷ dq) h k = ground (arith, k.0, recent-later t now dq h k.1)

pub length-prune :
    (now last : ℕ) (dq : List ℕ) → InOrder last dq → length (prune now dq) ≡ recent now dq
unfolding recent prune InOrder
length-prune now last [] h = refl
length-prune now last (t ∷ dq) h = elim (Bool-cases (leb (t + window) now)) [
  | inl e ↦ ground (arith, length-prune now last dq h.2)
  | inr e ↦ ground (arith, recent-later t now dq (leb→lt (t + window) now e) h.1)
]

prune-old :
    (now t : ℕ) (dq : List ℕ) → leb (t + window) now ≡ true → prune now (t ∷ dq) ≡ prune now dq
unfolding prune
prune-old now t dq e = ground arith

prune-recent :
    (now t : ℕ) (dq : List ℕ) → leb (t + window) now ≡ false → prune now (t ∷ dq) ≡ t ∷ dq
unfolding prune
prune-recent now t dq e = ground arith

pub local_cap-positive : (workers max_attempts : ℕ) → 0 < local_cap workers max_attempts
unfolding local_cap
local_cap-positive workers max_attempts = omega arith

pub local_retry_iff :
    (effective now : ℕ) (dq : List ℕ)
    → 0 < effective
    → (local_retry effective now dq ≡ none) ↔ (length dq < effective)
unfolding local_retry
local_retry_iff effective now [] h = ((λ k. h), (λ k. refl))
local_retry_iff effective now (t ∷ dq) h = ((λ k. ground arith), (λ k. ground arith))

-- With the shared window lost and the local one in order, a request is let through exactly when the
-- attempts of the last window are fewer than the process's cap.
pub retry_after_iff :
    (workers : ℕ) (key : Text) (max_attempts now last : ℕ) (failures : Failures)
    → InOrder last (failures key)
    → ((retry_after workers key max_attempts now none failures).0 ≡ none)
      ↔ (recent now (failures key) < local_cap workers max_attempts)
unfolding retry_after
retry_after_iff workers key max_attempts now last failures h =
    rw (sym (length-prune now last (failures key) h)) (
      local_retry_iff (local_cap workers max_attempts) now (prune now (failures key))
        (local_cap-positive workers max_attempts))

first-leaves :
    (effective now t wait : ℕ) (dq : List ℕ)
    → local_retry effective now (t ∷ dq) ≡ some wait
    → t + window ≤ now + wait * second
unfolding local_retry
first-leaves effective now t wait dq h = ground arith

pub recent-antitone : (now later : ℕ) (dq : List ℕ) → now ≤ later → recent later dq ≤ recent now dq
unfolding recent
recent-antitone now later [] h = omega arith
recent-antitone now later (t ∷ dq) h = ground (arith, recent-antitone now later dq h)

recent-leaves :
    (effective now last wait : ℕ) (dq : List ℕ)
    → InOrder last dq
    → local_retry effective now (prune now dq) ≡ some wait
    → recent (now + wait * second) dq < recent now dq
unfolding recent prune InOrder local_retry
recent-leaves effective now last wait [] h k = cc
recent-leaves effective now last wait (t ∷ dq) h k = elim (Bool-cases (leb (t + window) now)) [
  | inl e ↦ ground (arith, recent-leaves effective now last wait dq h.2)
  | inr e ↦ ground (
    arith,
    first-leaves effective now t wait dq
        (sym (ap (local_retry effective now) (prune-recent now t dq e)) ∙ k),
    recent-antitone now (now + wait * second) dq,
  )
]

-- After the wait that a refusal names, fewer attempts are in the window: the oldest one has left.
pub retry_after-wait :
    (workers : ℕ) (key : Text) (max_attempts now last wait : ℕ) (failures : Failures)
    → InOrder last (failures key)
    → (retry_after workers key max_attempts now none failures).0 ≡ some wait
    → recent (now + wait * second) (failures key) < recent now (failures key)
unfolding retry_after
retry_after-wait workers key max_attempts now last wait failures h k =
    recent-leaves (local_cap workers max_attempts) now last wait (failures key) h k
