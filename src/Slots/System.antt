-- ===== src/Slots/System.antt =====
-- `_SharedSlots`, and the workers that share it. The four commands of `acquire` are one transaction;
-- taking a refused entry back out is a later one.
pub mod Ceiling
use dbbuddy.Base.{
  ℕ, ◌+◌, ◌≤◌, ◌<◌, ◌≡◌, Bool, true, false, not, leb, ltb, if◌then◌else◌, String, ◌=ₛ◌, ◌&&◌, ◌||◌,
  List, [], ◌∷◌, keep, any, Option, none, some,
}
use dbbuddy.Slots.Redis.{SortedSets}

module _ (redis : SortedSets) (limit lease : ℕ) where
  open redis use {Store, zadd, zrem, zremrangebyscore, zcard}

  -- The transaction: the store after it, and whether the count is within the limit. The expiry
  -- set on the whole key leaves the scores as they are.
  unfoldable pub acquire_transaction : String → String → ℕ → Store → Store × Bool
  acquire_transaction target token now s =
      let s' = zadd target token (now + lease) (zremrangebyscore target now s) in
      (s', leb (zcard target s') limit)

  -- One attempt with nothing in between.
  unfoldable pub acquire : String → String → ℕ → Store → Store × Bool
  unfolding acquire_transaction
  acquire target token now s =
      let (s', admitted) = acquire_transaction target token now s in
      if admitted then (s', true) else (zrem target token s', false)

  unfoldable pub release : String → String → Store → Store
  release target token s = zrem target token s

  unfoldable pub occupancy : String → Store → ℕ
  occupancy target s = zcard target s

-- A worker inside `query_slot`, or one whose refused entry is still in the set.
pub record Holder : Type 0 where
  pub target : String
  pub token : String
  pub expires : ℕ

pub record World (redis : SortedSets) : Type 0 where
  pub store : redis.Store
  pub clock : ℕ
  pub holders : List Holder
  pub leaving : List Holder

abbrev pub same_token : String → Holder → Bool
same_token token h = h.token =ₛ token

abbrev pub others : String → List Holder → List Holder
others token = keep (λ h. not (same_token token h))

-- What one worker does, in any order with the others. A clock reading may be old when the
-- transaction runs. Tokens are fresh, as those of uuid4.
module _ (redis : SortedSets) (limit lease : ℕ) where
  pub data Step (w : World redis) : World redis → Type 0 where
    tick : (n : ℕ) → Step w (record w { clock = w.clock + n })
    admit :
        (target token : String) (now : ℕ)
        → now ≤ w.clock
        → any (same_token token) w.holders ≡ false
        → any (same_token token) w.leaving ≡ false
        → (acquire_transaction redis limit lease target token now w.store).1 ≡ true
        → Step w (record w {
          store = (acquire_transaction redis limit lease target token now w.store).0;
          holders = record { target = target; token = token; expires = now + lease } ∷ w.holders;
        })
    refuse :
        (target token : String) (now : ℕ)
        → now ≤ w.clock
        → any (same_token token) w.holders ≡ false
        → any (same_token token) w.leaving ≡ false
        → (acquire_transaction redis limit lease target token now w.store).1 ≡ false
        → Step w (record w {
          store = (acquire_transaction redis limit lease target token now w.store).0;
          leaving = record { target = target; token = token; expires = now + lease } ∷ w.leaving;
        })
    back_out :
        (target token : String)
        → any (same_token token) w.holders ≡ false
        → Step w
            (record w { store = redis.zrem target token w.store; leaving = others token w.leaving })
    finish :
        (target token : String)
        → Step w (record w {
          store = release redis limit lease target token w.store;
          holders = others token w.holders;
        })
    -- A worker that dies, or whose release fails, leaves its entry behind.
    die : (token : String) → Step w (record w { holders = others token w.holders })
    -- The key of a target expires, which drops leases that have run out.
    key_expires :
        (target : String)
        → Step w (record w { store = redis.zremrangebyscore target w.clock w.store })

  pub data Reach (w : World redis) : World redis → Type 0 where
    here : Reach w w
    next : {u v : World redis} → Reach w u → Step u v → Reach w v

-- Holds a slot of the target under a lease that has not run out.
abbrev pub is_live : String → ℕ → Holder → Bool
is_live target clock h = (h.target =ₛ target) && ltb clock h.expires

abbrev pub live : String → ℕ → List Holder → List Holder
live target clock = keep (is_live target clock)
