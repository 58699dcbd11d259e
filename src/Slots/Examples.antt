-- ===== src/Slots/Examples.antt =====
-- Sorted sets held in memory, a run of two workers, and waits at concrete inputs.
use dbbuddy.Base.{
  ℕ, zero, suc, ◌+◌, ◌≤◌, ◌<◌, ◌≡◌, ◌≢◌, refl, Bool, true, false, not, if◌then◌else◌, String, ◌=ₛ◌,
  eq_iff, ◌&&◌, List, [], ◌∷◌, keep, keep-true, keep-false, Option, none, some, length, Holds,
  arith, Bool-cases, inl, inr, leb,
}
use dbbuddy.Base.Equality.{string_eq}
use dbbuddy.Base.Dict.{Dict, get, put, remove, get-put, get-remove}
use dbbuddy.Slots.{Settings}
use dbbuddy.Base.Distinct.{Distinct, Distinct-keep, length-keep-Distinct}
use dbbuddy.Slots.Redis.{SortedSets, IsPresent, drop_up_to}
use dbbuddy.Slots.System.{
  acquire_transaction, acquire, occupancy, World, admit, Reach, here, next, live,
}
use dbbuddy.Slots.System.Ceiling.{live-le-limit}
use dbbuddy.Slots.Waiting.{
  Poll, admitted, refused, shared_slot, out_of_fuel, wait, RefusedBefore, wait-ne-out_of_fuel,
  wait-shared_slot,
}

get-keep :
    (q : String → Bool) (n : String) (d : Dict ℕ)
    → get n (keep (λ e. q e.0) d) ≡ (if q n then get n d else none)
unfolding get
get-keep q n [] = ground arith
get-keep q n ((j, v) ∷ d) = ground (arith, eq_iff j n, get-keep q n d)

abbrev MemoryStore : Type 0
MemoryStore = String → Dict ℕ

abbrev stays : ℕ → Option ℕ → Bool
stays bound none = false
stays bound (some x) = not (leb x bound)

memory_score-add :
    (k j m n : String) (x : ℕ) (s : MemoryStore)
    → get n (if k =ₛ j then put m x (s j) else s j)
      ≡ (if (k =ₛ j) && (m =ₛ n) then some x else get n (s j))
memory_score-add k j m n x s = ground (arith, get-put m n x (s j))

memory_score-remove :
    (k j m n : String) (s : MemoryStore)
    → get n (if k =ₛ j then remove m (s j) else s j)
      ≡ (if (k =ₛ j) && (m =ₛ n) then none else get n (s j))
memory_score-remove k j m n s = ground (arith, get-remove m n (s j))

memory_score-prune :
    (k j n : String) (x : ℕ) (s : MemoryStore)
    → get n (if k =ₛ j then keep (λ e. stays x (get e.0 (s j))) (s j) else s j)
      ≡ (if k =ₛ j then drop_up_to x (get n (s j)) else get n (s j))
memory_score-prune k j n x s = elim (Bool-cases (k =ₛ j)) [
  | inl e ↦ ground (arith, get-keep (λ m. stays x (get m (s j))) n (s j))
  | inr e ↦ ground (arith, e)
]

IsPresent-keep :
    (j : String) (v : ℕ) (d : Dict ℕ) (ts : List String)
    → Holds (λ t. IsPresent (get t ((j, v) ∷ d))) ts
    → Holds (λ t. IsPresent (get t d)) (keep (λ u. not (j =ₛ u)) ts)
unfolding get
IsPresent-keep j v d [] h = h
IsPresent-keep j v d (t ∷ ts) h = elim (Bool-cases (not (j =ₛ t))) [
  | inl e ↦
      rw (keep-true (λ u. not (j =ₛ u)) t ts e)
        ((λ p. h.0 (ground (arith, e, p))), IsPresent-keep j v d ts h.1)
  | inr e ↦ rw (keep-false (λ u. not (j =ₛ u)) t ts e) (IsPresent-keep j v d ts h.1)
]

length-present :
    (d : Dict ℕ) (ts : List String)
    → Distinct ts
    → Holds (λ t. IsPresent (get t d)) ts
    → length ts ≤ length d
unfolding get
length-present [] [] h k = omega arith
length-present [] (t ∷ ts) h k = absurd (k.0 refl)
length-present ((j, v) ∷ d) ts h k = omega (
  arith,
  length-keep-Distinct j ts h,
  length-present d (keep (λ u. not (j =ₛ u)) ts) (Distinct-keep (λ u. not (j =ₛ u)) ts h)
      (IsPresent-keep j v d ts k),
)

abbrev in_memory : SortedSets
in_memory = record {
  Store = MemoryStore;
  score = λ k m s. get m (s k);
  zadd = λ k m x s j. if k =ₛ j then put m x (s j) else s j;
  zrem = λ k m s j. if k =ₛ j then remove m (s j) else s j;
  zremrangebyscore = λ k x s j. if k =ₛ j then keep (λ e. stays x (get e.0 (s j))) (s j) else s j;
  zcard = λ k s. length (s k);
  score_zadd = memory_score-add;
  score_zrem = memory_score-remove;
  score_zremrangebyscore = memory_score-prune;
  zcard_counts = λ k ts s. length-present (s k) ts;
}

abbrev nothing : MemoryStore
nothing = λ j. []

abbrev start : World in_memory
start = record { store = nothing; clock = 100; holders = []; leaving = [] }

abbrev first_in : MemoryStore
first_in = λ j. if "erp" =ₛ j then ("a", 130) ∷ [] else []

-- With a limit of 1, the second worker is refused while the first holds its lease.
refused_by_limit : (acquire in_memory 1 30 "erp" "b" 110 first_in).1 ≡ false
unfolding acquire acquire_transaction get put remove
refused_by_limit = refl

-- The lease of a worker that never released is pruned when it has run out.
admitted_after_lease :
    ((acquire in_memory 1 30 "erp" "b" 130 first_in).1 ≡ true)
    × (occupancy in_memory 1 30 "erp" (acquire in_memory 1 30 "erp" "b" 130 first_in).0 ≡ 1)
unfolding acquire acquire_transaction get put remove occupancy
admitted_after_lease = (refl, refl)

after_admission : World in_memory
after_admission = record {
  store = (acquire_transaction in_memory 1 30 "erp" "a" 100 nothing).0;
  clock = 100;
  holders = record { target = "erp"; token = "a"; expires = 130 } ∷ [];
  leaving = [];
}

admission : Reach in_memory 1 30 start after_admission
unfolding after_admission acquire_transaction get put remove
admission = next here (admit "erp" "a" 100 (omega arith) refl refl refl)

live-le-limit_example : length (live "erp" after_admission.clock after_admission.holders) ≤ 1
live-le-limit_example = live-le-limit in_memory 1 30 nothing 100 after_admission admission "erp"

abbrev settings : Settings
settings = record { statement_timeout = 30; slot_lease = 300; lease_margin = 30; lease_floor = 60 }

-- Admitted at the third poll.
abbrev polls : ℕ → Poll
polls zero = refused
polls (suc zero) = refused
polls (suc (suc n)) = admitted

abbrev times : ℕ → ℕ
times n = 10 + n

times-moves : (n : ℕ) → times n < times (suc n)
times-moves n = omega arith

wait-ne-out_of_fuel_example : wait polls times (λ left. false) 20 11 0 ≢ out_of_fuel
wait-ne-out_of_fuel_example =
    wait-ne-out_of_fuel polls times (λ left. false) 20 times-moves 10 0 (omega arith)

third_poll : wait polls times (λ left. false) 20 11 0 ≡ shared_slot
unfolding wait
third_poll = refl

wait-shared_slot_example :
    (m : ℕ) × (polls m ≡ admitted) × RefusedBefore polls times (λ left. false) 20 0 m
wait-shared_slot_example = wait-shared_slot polls times (λ left. false) 20 11 0 third_poll
