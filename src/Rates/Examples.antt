-- ===== src/Rates/Examples.antt =====
-- Tests of the rate limiter, over lists of Redis as a function from keys to stamps and a deadline.
use dbbuddy.Base.{
  ℕ, ◌+◌, ◌≤◌, ◌<◌, ◌≡◌, refl, true, false, ltb, if◌then◌else◌, String, ◌=ₛ◌, List, [], ◌∷◌, arith,
}
use dbbuddy.Rates.{take, StampLists, answers, promised}
use dbbuddy.Rates.Refines.{check_rate_limit-refines}

abbrev Store : Type 0
Store = String → List ℕ × ℕ

abbrev lrange : String → ℕ → Store → List ℕ
lrange key now s = if ltb now (s key).1 then (s key).0 else []

abbrev record_stamp : String → (stamp size ttl now : ℕ) → Store → Store
record_stamp key stamp size ttl now s other =
    if key =ₛ other then (take size (stamp ∷ lrange key now s), now + ttl) else s other

lrange-record_stamp :
    (key other : String) (stamp size ttl now later : ℕ) (s : Store)
    → 0 < size
    → now ≤ later
    → lrange other later (record_stamp key stamp size ttl now s) ≡ (
        if key =ₛ other
        then (if ltb later (now + ttl) then take size (stamp ∷ lrange key now s) else [])
        else lrange other later s)
lrange-record_stamp key other stamp size ttl now later s p l = ground arith

abbrev redis : StampLists
redis = record {
  Store = Store;
  lrange = lrange;
  record_stamp = record_stamp;
  lrange-record_stamp = lrange-record_stamp;
}

abbrev empty_store : Store
empty_store key = ([], 0)

nothing_there : (key : String) (now : ℕ) → lrange key now empty_store ≡ []
nothing_there key now = ground arith

abbrev requests : List (String × ℕ)
requests = ("a", 5) ∷ ("a", 5) ∷ ("a", 6) ∷ ("b", 6) ∷ ("a", 15) ∷ ("a", 16) ∷ ("a", 17) ∷ []

two_in_ten :
    answers redis 2 10 requests empty_store ≡ true ∷ true ∷ false ∷ true ∷ true ∷ true ∷ false ∷ []
unfolding answers
two_in_ten = refl

check_rate_limit-refines_example :
    answers redis 2 10 requests empty_store ≡ promised 2 10 requests []
check_rate_limit-refines_example =
    check_rate_limit-refines redis 2 10 requests 0 empty_store (omega arith) nothing_there
