-- ===== src/Audit/Sequence.antt =====
-- `sequence_gaps`: what the sequence values say about rows that are gone.
pub mod Ranges
pub mod Counting
pub mod Gaps
use dbbuddy.Base.{
  ℕ, zero, suc, ◌+◌, ◌-◌, Bool, true, false, not, leb, ltb, ◌==◌, if◌then◌else◌, ◌&&◌, Option, none,
  some, List, [], ◌∷◌, ◌++◌, length, any,
}
use Prim.Native.Nat.{min, max}

pub record SequenceReport : Type 0 where
  pub first : Option ℕ
  pub last : Option ℕ
  pub present : ℕ
  pub expected : ℕ
  pub missing : ℕ
  pub ranges : List (ℕ × ℕ)
  pub duplicates : ℕ
  pub unsequenced : ℕ
  pub tail_missing : ℕ

abbrev pub is_in : ℕ → List ℕ → Bool
is_in v = any (λ u. v == u)

-- The first loop: the distinct values, the repeats and the rows without a value.
pub record Seen : Type 0 where
  pub seen : List ℕ
  pub duplicates : ℕ
  pub unsequenced : ℕ

unfoldable pub count_value : Seen → Option ℕ → Seen
count_value s none = record s { unsequenced = suc s.unsequenced }
count_value s (some v) =
    if is_in v s.seen
    then record s { duplicates = suc s.duplicates }
    else record s { seen = v ∷ s.seen }

unfoldable pub count_values : Seen → List (Option ℕ) → Seen
unfolding count_value
count_values s [] = s
count_values s (v ∷ vs) = count_values (count_value s v) vs

abbrev pub minimum : ℕ → List ℕ → ℕ
minimum m [] = m
minimum m (v ∷ vs) = min v (minimum m vs)

abbrev pub maximum : ℕ → List ℕ → ℕ
maximum m [] = m
maximum m (v ∷ vs) = max v (maximum m vs)

-- The second loop, over `count` values from `value`; `run_start` opens a range of absent ones.
unfoldable pub scan : (seen : List ℕ) (count value : ℕ) → Option ℕ → List (ℕ × ℕ)
scan seen zero value none = []
scan seen zero value (some start) = (start, value - 1) ∷ []
scan seen (suc count) value none =
    let present = scan seen count (suc value) none in
    let absent = scan seen count (suc value) (some value) in
    if is_in value seen then present else absent
scan seen (suc count) value (some start) =
    let present = scan seen count (suc value) none in
    let absent = scan seen count (suc value) (some start) in
    if is_in value seen then (start, value - 1) ∷ present else absent

-- The report on the distinct values, after the first loop.
unfoldable pub report :
    (seen : List ℕ) (duplicates unsequenced : ℕ) (last_value : Option ℕ) → SequenceReport
unfolding scan
report [] duplicates unsequenced last_value = record {
  first = none;
  last = none;
  present = 0;
  expected = 0;
  missing = 0;
  ranges = [];
  duplicates = duplicates;
  unsequenced = unsequenced;
  tail_missing = 0;
}
report (v ∷ vs) duplicates unsequenced last_value =
    let first = minimum v vs in
    let last = maximum v vs in
    let expected = last - first + 1 in
    let present = length (v ∷ vs) in
    record {
      first = some first;
      last = some last;
      present = present;
      expected = expected;
      missing = expected - present;
      ranges = if ltb present expected then scan (v ∷ vs) expected first none else [];
      duplicates = duplicates;
      unsequenced = unsequenced;
      tail_missing = elim last_value [ none ↦ 0 | some l ↦ l - last ];
    }

abbrev pub nothing_seen : Seen
nothing_seen = record { seen = []; duplicates = 0; unsequenced = 0 }

unfoldable pub sequence_gaps : List (Option ℕ) → (last_value : Option ℕ) → SequenceReport
unfolding count_values report
sequence_gaps values last_value =
    let s = count_values nothing_seen values in report s.seen s.duplicates s.unsequenced last_value
