-- ===== src/Learning/Mappings.antt =====
-- One term's counts: how many targets they keep, which one is picked, and what a new target meets.
use dbbuddy.Base.{
  ℕ, suc, ◌+◌, ◌≤◌, ◌<◌, ◌≡◌, ◌≢◌, refl, sym, subst, Bool, true, false, ltb, ltb→le, ltb→lt,
  if◌then◌else◌, ◌&&◌, ◌==◌, any, Option, none, some, [], ◌∷◌, length, String, ◌=ₛ◌, eq_iff, Holds,
  arith, Bool-cases, inl, inr,
}
use Prim.Native.Nat.{max}
use dbbuddy.Base.Equality.{string_eq}
use dbbuddy.Base.Dict.{Dict, get, put, remove, get_or, get-put, length-put-le, length-remove-le}
use dbbuddy.Learning.{
  max_mappings_per_term, Counts, Memory, increment, lowest, highest, prune, add_mapping, best_of,
  get_best_mapping,
}

abbrev pub has : String → Counts → Bool
has k counts = elim (get k counts) [ none ↦ false | some n ↦ true ]

length-remove-present :
    (k : String) (counts : Counts)
    → has k counts ≡ true
    → suc (length (remove k counts)) ≤ length counts
unfolding get remove
length-remove-present k [] h = cc
length-remove-present k ((j, n) ∷ counts) h =
    ground (arith, length-remove-present k counts, length-remove-le k counts)

has-later :
    (k j : String) (n : ℕ) (counts : Counts) → has k counts ≡ true → has k ((j, n) ∷ counts) ≡ true
unfolding get
has-later k j n counts h = ground (arith, h)

has-between :
    (k i j : String) (n m : ℕ) (counts : Counts)
    → has k ((i, n) ∷ counts) ≡ true
    → has k ((i, n) ∷ (j, m) ∷ counts) ≡ true
unfolding get
has-between k i j n m counts h = ground (arith, h)

has-first : (k : String) (n : ℕ) (counts : Counts) → has k ((k, n) ∷ counts) ≡ true
unfolding get
has-first k n counts = ground (arith, eq_iff k k)

lowest-in :
    (best : String) (n : ℕ) (counts : Counts)
    → has (lowest best n counts) ((best, n) ∷ counts) ≡ true
unfolding lowest
lowest-in best n [] = has-first best n []
lowest-in best n ((t, m) ∷ counts) = elim (Bool-cases (ltb m n)) [
  | inl e ↦
      rw (e, lowest) (has-later (lowest t m counts) best n ((t, m) ∷ counts) (lowest-in t m counts))
  | inr e ↦
      rw (e, lowest)
        (has-between (lowest best n counts) best t n m counts (lowest-in best n counts))
]

-- The counts do not grow over three, nor where they are more.
length-prune :
    (n : ℕ) (counts : Counts)
    → max_mappings_per_term ≤ n
    → length counts ≤ suc n
    → length (prune counts) ≤ n
unfolding prune
length-prune n [] k h = omega arith
length-prune n ((t, m) ∷ counts) k h =
    elim (Bool-cases (ltb max_mappings_per_term (length ((t, m) ∷ counts)))) [
      | inl e ↦
          rw (e, prune)
            (omega (
              arith,
              h,
              length-remove-present (lowest t m counts) ((t, m) ∷ counts) (lowest-in t m counts),
            ))
      | inr e ↦
          rw (e, prune)
            (omega (arith, k, ltb→le max_mappings_per_term (length ((t, m) ∷ counts)) e))
    ]

unfoldable pub learnt_counts : Memory → String → String → Counts
learnt_counts memory term target = prune (increment target (get_or term [] memory.mappings))

length-learnt_counts :
    (memory : Memory) (term target : String)
    → length (learnt_counts memory term target)
      ≤ max max_mappings_per_term (length (get_or term [] memory.mappings))
unfolding learnt_counts increment
length-learnt_counts memory term target =
    let counts = get_or term [] memory.mappings in
    length-prune (max max_mappings_per_term (length counts))
      (put target (get_or target 0 counts + 1) counts) (omega arith)
      (omega (arith, length-put-le target (get_or target 0 counts + 1) counts))

pub get-add_mapping :
    (memory : Memory) (term target other : String)
    → get other (add_mapping memory term target).0.mappings ≡ (
        if term =ₛ other
        then some (learnt_counts memory term target)
        else get other memory.mappings)
unfolding add_mapping learnt_counts
get-add_mapping memory term target other =
    get-put term other (prune (increment target (get_or term [] memory.mappings))) memory.mappings

abbrev pub or_empty : Option Counts → Counts
or_empty none = []
or_empty (some counts) = counts

or_empty-elim :
    (o : Option Counts) → (elim o as (λ x. Counts) [ none ↦ [] | some v ↦ v ]) ≡ or_empty o
or_empty-elim none = refl
or_empty-elim (some counts) = refl

pub or_empty-get : (term : String) (m : Dict Counts) → get_or term [] m ≡ or_empty (get term m)
or_empty-get term m = or_empty-elim (get term m)

-- After `add_mapping` no term has more targets than the cap of three, or than it had before where
-- that was more already.
pub length-add_mapping :
    (memory : Memory) (term target other : String)
    → length (get_or other [] (add_mapping memory term target).0.mappings)
      ≤ max max_mappings_per_term (length (get_or other [] memory.mappings))
length-add_mapping memory term target other =
    rw (or_empty-get other (add_mapping memory term target).0.mappings) (
      rw (get-add_mapping memory term target other) (elim (Bool-cases (term =ₛ other)) [
        | inl e ↦ rw e (
            subst
              (λ t.
                length (learnt_counts memory term target)
                ≤ max max_mappings_per_term (length (get_or t [] memory.mappings)))
              ((eq_iff term other).0 e) (length-learnt_counts memory term target))
        | inr e ↦ rw e (rw (sym (or_empty-get other memory.mappings)) (omega arith))
      ]))

-- What one term has learnt is not changed by learning another.
pub add_mapping-other :
    (memory : Memory) (term target other : String)
    → term ≢ other
    → get other (add_mapping memory term target).0.mappings ≡ get other memory.mappings
add_mapping-other memory term target other h =
    ground (arith, get-add_mapping memory term target other, h, eq_iff term other)

abbrev stands : String → ℕ → Counts → Bool
stands target n = any (λ e. (e.0 =ₛ target) && (e.1 == n))

-- What it takes to pick a target, or none.
abbrev pub IsPick : Counts → ℕ → Option String → Type 0
IsPick counts threshold none = Holds (λ e. e.1 < threshold) counts
IsPick counts threshold (some target) =
    (n : ℕ) × (threshold ≤ n) × (stands target n counts ≡ true) × Holds (λ e. e.1 ≤ n) counts

Holds-lt_trans :
    (a b : ℕ) (counts : Counts) → a < b → Holds (λ e. e.1 ≤ a) counts → Holds (λ e. e.1 < b) counts
Holds-lt_trans a b [] h k = k
Holds-lt_trans a b (e ∷ counts) h k = (omega (arith, k.0), Holds-lt_trans a b counts h k.1)

highest-more :
    (best t : String) (n m : ℕ) (counts : Counts)
    → ltb n m ≡ true
    → highest best n ((t, m) ∷ counts) ≡ highest t m counts
unfolding highest
highest-more best t n m counts e = rw (e, highest) refl

highest-less :
    (best t : String) (n m : ℕ) (counts : Counts)
    → ltb n m ≡ false
    → highest best n ((t, m) ∷ counts) ≡ highest best n counts
unfolding highest
highest-less best t n m counts e = rw (e, highest) refl

abbrev IsHighest : Counts → String × ℕ → Type 0
IsHighest counts p = (stands p.0 p.1 counts ≡ true) × Holds (λ e. e.1 ≤ p.1) counts

stands-later :
    (k : String) (x : ℕ) (e : String × ℕ) (counts : Counts)
    → stands k x counts ≡ true
    → stands k x (e ∷ counts) ≡ true
stands-later k x e counts h = ground (arith, h)

stands-between :
    (k : String) (x : ℕ) (e f : String × ℕ) (counts : Counts)
    → stands k x (e ∷ counts) ≡ true
    → stands k x (e ∷ f ∷ counts) ≡ true
stands-between k x e f counts h = ground (arith, h)

highest-IsHighest :
    (best : String) (n : ℕ) (counts : Counts)
    → IsHighest ((best, n) ∷ counts) (highest best n counts)
unfolding highest
highest-IsHighest best n [] = (ground (arith, eq_iff best best), (omega arith, tt))
highest-IsHighest best n ((t, m) ∷ counts) = elim (Bool-cases (ltb n m)) [
  | inl e ↦
      let p = highest t m counts in
      let top = highest-IsHighest t m counts in
      subst (IsHighest ((best, n) ∷ (t, m) ∷ counts)) (sym (highest-more best t n m counts e)) (
        stands-later p.0 p.1 (best, n) ((t, m) ∷ counts) top.0,
        (omega (arith, top.1.0, ltb→lt n m e), top.1),
      )
  | inr e ↦
      let p = highest best n counts in
      let top = highest-IsHighest best n counts in
      subst (IsHighest ((best, n) ∷ (t, m) ∷ counts)) (sym (highest-less best t n m counts e)) (
        stands-between p.0 p.1 (best, n) (t, m) counts top.0,
        (top.1.0, (omega (arith, top.1.0, ltb→le n m e), top.1.1)),
      )
]

none_picked :
    (t : String) (n : ℕ) (counts : Counts) (threshold : ℕ)
    → ltb (highest t n counts).1 threshold ≡ true
    → best_of ((t, n) ∷ counts) threshold ≡ none
unfolding best_of
none_picked t n counts threshold e = rw (e, best_of) refl

one_picked :
    (t : String) (n : ℕ) (counts : Counts) (threshold : ℕ)
    → ltb (highest t n counts).1 threshold ≡ false
    → best_of ((t, n) ∷ counts) threshold ≡ some (highest t n counts).0
unfolding best_of
one_picked t n counts threshold e = rw (e, best_of) refl

IsPick-best_of :
    (counts : Counts) (threshold : ℕ) → IsPick counts threshold (best_of counts threshold)
unfolding best_of
IsPick-best_of [] threshold = tt
IsPick-best_of ((t, n) ∷ counts) threshold =
    let p = highest t n counts in
    let top = highest-IsHighest t n counts in
    elim (Bool-cases (ltb p.1 threshold)) [
      | inl e ↦
          subst (IsPick ((t, n) ∷ counts) threshold) (sym (none_picked t n counts threshold e))
            (Holds-lt_trans p.1 threshold ((t, n) ∷ counts) (ltb→lt p.1 threshold e) top.1)
      | inr e ↦
          subst (IsPick ((t, n) ∷ counts) threshold) (sym (one_picked t n counts threshold e))
            (p.1, ltb→le p.1 threshold e, top.0, top.1)
    ]

-- The target that is picked has been counted at least `threshold` times and no other target of the
-- term more often; where none is picked, every target is below the threshold.
pub get_best_mapping-IsPick :
    (term : String) (memory : Memory) (threshold : ℕ)
    → IsPick (get_or term [] memory.mappings) threshold (get_best_mapping term memory threshold)
unfolding get_best_mapping
get_best_mapping-IsPick term memory threshold =
    IsPick-best_of (get_or term [] memory.mappings) threshold
