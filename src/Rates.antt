-- ===== src/Rates.antt =====
-- dbbuddy_core/rate_limiter.py: `RateLimiter.check_rate_limit` on a list of Redis, and what it stands
-- for. Times are whole numbers of a unit in which the window is one too.
pub mod Window
pub mod Refines
mod Examples
use dbbuddy.Base.{
  ℕ, zero, suc, ◌+◌, ◌≤◌, ◌<◌, ◌≡◌, Bool, true, false, ltb, leb, if◌then◌else◌, Option, none, some,
  String, ◌=ₛ◌, List, [], ◌∷◌, keep, length,
}

abbrev pub take {ℓ} : {A : Type ℓ} → ℕ → List A → List A
take zero xs = []
take (suc n) [] = []
take (suc n) (x ∷ xs) = x ∷ take n xs

-- The commands on lists of Redis that the code sends. `record_stamp` is `LPUSH key stamp`, `LTRIM key
-- 0 (size - 1)` and `EXPIRE key ttl` at the time `now`: the key then has the newest stamps, at most
-- `size` of them, until `ttl` has passed, and other keys stay as they are.
pub record StampLists : Type 1 where
  pub Store : Type 0
  pub lrange : String → (now : ℕ) → Store → List ℕ
  pub record_stamp : String → (stamp size ttl now : ℕ) → Store → Store
  pub lrange-record_stamp :
      (key other : String) (stamp size ttl now later : ℕ) (s : Store)
      → 0 < size
      → now ≤ later
      → lrange other later (record_stamp key stamp size ttl now s) ≡ (
          if key =ₛ other
          then (if ltb later (now + ttl) then take size (stamp ∷ lrange key now s) else [])
          else lrange other later s)

-- `ts > current_time - window_seconds`.
abbrev pub inside : (window now : ℕ) → ℕ → Bool
inside window now ts = ltb now (ts + window)

module _ (redis : StampLists) (max_requests window : ℕ) where
  open redis use {Store, lrange, record_stamp}

  -- `check_rate_limit` of a key at one time; without a connection every request is allowed.
  unfoldable pub check_rate_limit : (connected : Bool) → String → (now : ℕ) → Store → Store × Bool
  check_rate_limit connected key now s =
      if connected
      then (if leb max_requests (length (keep (inside window now) (lrange key now s)))
          then (s, false)
          else (record_stamp key now max_requests window now s, true))
      else (s, true)

  -- The answers to requests that come one after the other.
  unfoldable pub answers : List (String × ℕ) → Store → List Bool
  unfolding check_rate_limit
  answers [] s = []
  answers ((key, now) ∷ requests) s =
      let (s', allowed) = check_rate_limit true key now s in allowed ∷ answers requests s'

-- What the limiter promises: a log of the requests that were allowed, newest first, and a request is
-- allowed while fewer than the maximum of its key are inside the window.
abbrev pub Log : Type 0
Log = List (String × ℕ)

unfoldable pub stamps_of : String → Log → List ℕ
stamps_of key [] = []
stamps_of key ((k, stamp) ∷ log) =
    let rest = stamps_of key log in if k =ₛ key then stamp ∷ rest else rest

abbrev pub recent : (window : ℕ) → String → (now : ℕ) → Log → ℕ
recent window key now log = length (keep (inside window now) (stamps_of key log))

unfoldable pub promised : (max_requests window : ℕ) → List (String × ℕ) → Log → List Bool
unfolding stamps_of
promised max_requests window [] log = []
promised max_requests window ((key, now) ∷ requests) log =
    let refused = promised max_requests window requests log in
    let allowed = promised max_requests window requests ((key, now) ∷ log) in
    if ltb (recent window key now log) max_requests then true ∷ allowed else false ∷ refused
