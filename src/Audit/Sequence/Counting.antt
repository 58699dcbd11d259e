-- ===== src/Audit/Sequence/Counting.antt =====
-- How many values of a stretch are absent from a list, and what the first loop has counted.
use dbbuddy.Base.{
  ℕ, zero, suc, ◌+◌, ◌≤◌, ◌<◌, ◌≡◌, refl, ap, subst, ◌∙◌, Bool, true, false, ◌==◌, if◌then◌else◌,
  ◌||◌, Option, none, some, List, [], ◌∷◌, length, Holds, arith, Bool-cases, inl, inr,
}
use native.Mathlib.Decide.{dec_lt}
use Prim.Native.Nat.{min, max}
use dbbuddy.Audit.Sequence.{is_in, Seen, count_value, count_values, minimum, maximum}

-- The absent ones among `count` values from `value`.
unfoldable pub absent : (seen : List ℕ) (count value : ℕ) → ℕ
absent seen zero value = 0
absent seen (suc count) value = (if is_in value seen then 0 else 1) + absent seen count (suc value)

absent-nil : (count value : ℕ) → absent [] count value ≡ count
unfolding absent
absent-nil zero value = refl
absent-nil (suc count) value = omega (arith, absent-nil count (suc value))

absent-out :
    (x : ℕ) (xs : List ℕ) (count value : ℕ)
    → x < value
    → absent (x ∷ xs) count value ≡ absent xs count value
unfolding absent
absent-out x xs zero value h = refl
absent-out x xs (suc count) value h =
    ground (arith, absent-out x xs count (suc value) (omega arith))

absent-cons :
    (x : ℕ) (xs : List ℕ) (count value : ℕ)
    → is_in x xs ≡ false
    → value ≤ x
    → x < value + count
    → suc (absent (x ∷ xs) count value) ≡ absent xs count value
unfolding absent
absent-cons x xs zero value e h k = absurd (omega arith)
absent-cons x xs (suc count) value e h k = elim (dec_lt value x) [
  | yes p ↦ ground (arith, absent-cons x xs count (suc value) e (omega arith) (omega arith))
  | no p ↦
      let same : x ≡ value = omega arith in
      ground (arith, absent-out x xs count (suc value) (omega arith), ap (λ v. is_in v xs) same)
]

abbrev pub NoRepeat : List ℕ → Type 0
NoRepeat [] = Unit
NoRepeat (x ∷ xs) = (is_in x xs ≡ false) × NoRepeat xs

-- What is seen and what is absent make up the stretch.
pub absent-seen :
    (seen : List ℕ) (count value : ℕ)
    → NoRepeat seen
    → Holds (λ x. (value ≤ x) × (x < value + count)) seen
    → absent seen count value + length seen ≡ count
absent-seen [] count value h k = omega (arith, absent-nil count value)
absent-seen (x ∷ xs) count value h k =
    omega (arith, absent-cons x xs count value h.0 k.0.0 k.0.1, absent-seen xs count value h.1 k.1)

is_in_same : (v u : ℕ) (xs : List ℕ) → is_in u xs ≡ true → is_in v xs ≡ (is_in v xs || (v == u))
is_in_same v u xs h = elim (Bool-cases (v == u)) [
  | inr e ↦ ground arith
  | inl e ↦ let same : v ≡ u = ground arith in ground (arith, ap (λ x. is_in x xs) same)
]

unfoldable pub recorded : ℕ → List (Option ℕ) → Bool
recorded v [] = false
recorded v (none ∷ vs) = recorded v vs
recorded v (some u ∷ vs) = (v == u) || recorded v vs

is_in-count_value :
    (v u : ℕ) (s : Seen) → is_in v (count_value s (some u)).seen ≡ (is_in v s.seen || (v == u))
unfolding count_value
is_in-count_value v u s = elim (Bool-cases (is_in u s.seen)) [
  | inr e ↦ rw e (ground arith)
  | inl e ↦ rw e (is_in_same v u s.seen e)
]

is_in_unvalued : (v : ℕ) (s : Seen) → is_in v (count_value s none).seen ≡ is_in v s.seen
unfolding count_value
is_in_unvalued v s = refl

pub is_in-count_values :
    (v : ℕ) (s : Seen) (vs : List (Option ℕ))
    → is_in v (count_values s vs).seen ≡ (is_in v s.seen || recorded v vs)
unfolding count_values recorded
is_in-count_values v s [] = ground arith
is_in-count_values v s (none ∷ vs) =
    is_in-count_values v (count_value s none) vs ∙ ap (λ b. b || recorded v vs) (is_in_unvalued v s)
is_in-count_values v s (some u ∷ vs) =
    ground (arith, is_in-count_value v u s, is_in-count_values v (count_value s (some u)) vs)

NoRepeat-count_value : (u : ℕ) (s : Seen) → NoRepeat s.seen → NoRepeat (count_value s (some u)).seen
unfolding count_value
NoRepeat-count_value u s h = elim (Bool-cases (is_in u s.seen)) [
  | inl e ↦ rw (e, count_value) h
  | inr e ↦ rw (e, count_value) (e, h)
]

pub NoRepeat-count_values :
    (s : Seen) (vs : List (Option ℕ)) → NoRepeat s.seen → NoRepeat (count_values s vs).seen
unfolding count_values count_value
NoRepeat-count_values s [] h = h
NoRepeat-count_values s (none ∷ vs) h = NoRepeat-count_values (count_value s none) vs h
NoRepeat-count_values s (some u ∷ vs) h =
    NoRepeat-count_values (count_value s (some u)) vs (NoRepeat-count_value u s h)

rows : Seen → ℕ
rows t = length t.seen + t.duplicates + t.unsequenced

rows-count_value : (o : Option ℕ) (s : Seen) → rows (count_value s o) ≡ suc (rows s)
unfolding rows count_value
rows-count_value none s = omega arith
rows-count_value (some u) s = elim (Bool-cases (is_in u s.seen)) [
  | inl e ↦ rw (e, count_value) (omega arith)
  | inr e ↦ rw (e, count_value) (omega arith)
]

rows-count_values :
    (s : Seen) (vs : List (Option ℕ)) → rows (count_values s vs) ≡ rows s + length vs
unfolding count_values
rows-count_values s [] = omega arith
rows-count_values s (o ∷ vs) =
    omega (arith, rows-count_value o s, rows-count_values (count_value s o) vs)

-- Each row is counted once: as a new value, as a repeat, or as a row without one.
pub count_values-total :
    (s : Seen) (vs : List (Option ℕ))
    → length (count_values s vs).seen
        + (count_values s vs).duplicates
        + (count_values s vs).unsequenced
      ≡ length s.seen + s.duplicates + s.unsequenced + length vs
unfolding rows
count_values-total s vs = rows-count_values s vs

within_rest :
    (v w : ℕ) (vs us : List ℕ)
    → Holds (λ x. (minimum v vs ≤ x) × (x ≤ maximum v vs)) us
    → Holds (λ x. (minimum v (w ∷ vs) ≤ x) × (x ≤ maximum v (w ∷ vs))) us
within_rest v w vs [] h = h
within_rest v w vs (u ∷ us) h =
    ((omega (arith, h.0.0), omega (arith, h.0.1)), within_rest v w vs us h.1)

pub within : (v : ℕ) (vs : List ℕ) → Holds (λ x. (minimum v vs ≤ x) × (x ≤ maximum v vs)) (v ∷ vs)
within v [] = ((omega arith, omega arith), tt)
within v (w ∷ vs) =
    let rest = within_rest v w vs (v ∷ vs) (within v vs) in
    (rest.0, ((omega arith, omega arith), rest.1))

min_below : (a b : ℕ) → a < b → a ≡ min a b
min_below a b h = omega arith

min_above : (a b : ℕ) → ¬ (a < b) → b ≡ min a b
min_above a b h = omega arith

max_above : (a b : ℕ) → b < a → a ≡ max a b
max_above a b h = omega arith

max_below : (a b : ℕ) → ¬ (b < a) → b ≡ max a b
max_below a b h = omega arith

is_in_second : (v w : ℕ) (vs : List ℕ) → is_in w (v ∷ w ∷ vs) ≡ true
is_in_second v w vs = ground arith

is_in_later : (m v w : ℕ) (vs : List ℕ) → is_in m (v ∷ vs) ≡ true → is_in m (v ∷ w ∷ vs) ≡ true
is_in_later m v w vs h = ground arith

pub minimum_in : (v : ℕ) (vs : List ℕ) → is_in (minimum v vs) (v ∷ vs) ≡ true
minimum_in v [] = ground arith
minimum_in v (w ∷ vs) = elim (dec_lt w (minimum v vs)) [
  | yes p ↦
      subst (λ m. is_in m (v ∷ w ∷ vs) ≡ true) (min_below w (minimum v vs) p) (is_in_second v w vs)
  | no p ↦
      subst (λ m. is_in m (v ∷ w ∷ vs) ≡ true) (min_above w (minimum v vs) p)
        (is_in_later (minimum v vs) v w vs (minimum_in v vs))
]

pub maximum_in : (v : ℕ) (vs : List ℕ) → is_in (maximum v vs) (v ∷ vs) ≡ true
maximum_in v [] = ground arith
maximum_in v (w ∷ vs) = elim (dec_lt (maximum v vs) w) [
  | yes p ↦
      subst (λ m. is_in m (v ∷ w ∷ vs) ≡ true) (max_above w (maximum v vs) p) (is_in_second v w vs)
  | no p ↦
      subst (λ m. is_in m (v ∷ w ∷ vs) ≡ true) (max_below w (maximum v vs) p)
        (is_in_later (maximum v vs) v w vs (maximum_in v vs))
]

pub is_in-within :
    (x v : ℕ) (vs us : List ℕ)
    → Holds (λ x. (minimum v vs ≤ x) × (x ≤ maximum v vs)) us
    → is_in x us ≡ true
    → (minimum v vs ≤ x) × (x ≤ maximum v vs)
is_in-within x v vs [] h e = cc
is_in-within x v vs (u ∷ us) h e = elim (Bool-cases (x == u)) [
  | inl d ↦ let same : x ≡ u = ground arith in rw same h.0
  | inr d ↦ is_in-within x v vs us h.1 (ground arith)
]
