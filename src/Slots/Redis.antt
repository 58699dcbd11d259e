-- ===== src/Slots/Redis.antt =====
-- The sorted sets of Redis that the shared count rests on, by their documented effect: a set is
-- named by a key and holds members with scores.
use dbbuddy.Base.Distinct.{Distinct}
use dbbuddy.Base.{
  ℕ, ◌≤◌, ◌≡◌, ◌≢◌, Option, none, some, List, String, ◌=ₛ◌, ◌&&◌, leb, if◌then◌else◌, length, Holds,
}

abbrev pub drop_up_to : ℕ → Option ℕ → Option ℕ
drop_up_to bound none = none
drop_up_to bound (some x) = if leb x bound then none else some x

abbrev pub IsPresent : Option ℕ → Type 0
IsPresent o = o ≢ none

-- `score` is the content; scores are not negative, so a range from 0 has only its upper end.
pub record SortedSets : Type 1 where
  pub Store : Type 0
  pub score : String → String → Store → Option ℕ
  pub zadd : String → String → ℕ → Store → Store
  pub zrem : String → String → Store → Store
  pub zremrangebyscore : String → ℕ → Store → Store
  pub zcard : String → Store → ℕ
  pub score_zadd :
      (k j m n : String) (x : ℕ) (s : Store)
      → score j n (zadd k m x s) ≡ (if (k =ₛ j) && (m =ₛ n) then some x else score j n s)
  pub score_zrem :
      (k j m n : String) (s : Store)
      → score j n (zrem k m s) ≡ (if (k =ₛ j) && (m =ₛ n) then none else score j n s)
  pub score_zremrangebyscore :
      (k j n : String) (x : ℕ) (s : Store)
      → score j n (zremrangebyscore k x s)
        ≡ (if k =ₛ j then drop_up_to x (score j n s) else score j n s)
  pub zcard_counts :
      (k : String) (ts : List String) (s : Store)
      → Distinct ts
      → Holds (λ t. IsPresent (score k t s)) ts
      → length ts ≤ zcard k s
