-- ===== src/Learning/Room.antt =====
-- Terms that have room for a target.
use dbbuddy.Base.{
  ℕ, ◌+◌, ◌≤◌, ◌<◌, ◌≡◌, refl, sym, subst, true, if◌then◌else◌, Option, none, some, [], ◌∷◌, length,
  String, ◌=ₛ◌, eq_iff, arith, Bool-cases, inl, inr, ◌⊎◌, ap, ◌∙◌,
}
use dbbuddy.Base.Equality.{string_eq}
use dbbuddy.Base.Dict.{get, put, get_or, get-put, length-put-le}
use dbbuddy.Learning.{max_mappings_per_term, Counts, Memory, increment, prune, add_mapping}
use dbbuddy.Learning.Mappings.{has, learnt_counts, get-add_mapping, or_empty, or_empty-get}

length-put-present :
    (k : String) (n : ℕ) (counts : Counts)
    → has k counts ≡ true
    → length (put k n counts) ≡ length counts
unfolding get put
length-put-present k n [] h = cc
length-put-present k n ((j, m) ∷ counts) h = ground (arith, length-put-present k n counts)

prune-within : (counts : Counts) → length counts ≤ max_mappings_per_term → prune counts ≡ counts
unfolding prune
prune-within [] h = refl
prune-within ((t, n) ∷ counts) h = ground (arith, h)

-- The target is known to a term with at most three, or the term has fewer than three.
abbrev pub HasRoom : String → Counts → Type 0
HasRoom target counts =
    ((has target counts ≡ true) × (length counts ≤ max_mappings_per_term))
    ⊎ (length counts < max_mappings_per_term)

length-increment :
    (target : String) (counts : Counts)
    → HasRoom target counts
    → length (increment target counts) ≤ max_mappings_per_term
unfolding increment
length-increment target counts (inl h) =
    omega (arith, h.1, length-put-present target (get_or target 0 counts + 1) counts h.0)
length-increment target counts (inr h) =
    omega (arith, h, length-put-le target (get_or target 0 counts + 1) counts)

abbrev or_zero : Option ℕ → ℕ
or_zero none = 0
or_zero (some n) = n

or_zero-elim : (o : Option ℕ) → (elim o as (λ x. ℕ) [ none ↦ 0 | some v ↦ v ]) ≡ or_zero o
or_zero-elim none = refl
or_zero-elim (some n) = refl

get_or-increment :
    (target other : String) (counts : Counts)
    → get_or other 0 (increment target counts)
      ≡ get_or other 0 counts + (if target =ₛ other then 1 else 0)
unfolding increment
get_or-increment target other counts =
    let n = get_or target 0 counts + 1 in
    or_zero-elim (get other (put target n counts))
    ∙ (ap or_zero (get-put target other n counts) ∙ elim (Bool-cases (target =ₛ other)) [
      | inl e ↦ rw e (subst (λ t. n ≡ get_or t 0 counts + 1) ((eq_iff target other).0 e) refl)
      | inr e ↦ rw e (sym (or_zero-elim (get other counts)) ∙ omega arith)
    ])

get-increment :
    (target : String) (counts : Counts)
    → get target (increment target counts) ≡ some (get_or target 0 counts + 1)
unfolding increment
get-increment target counts =
    let n = get_or target 0 counts + 1 in
    get-put target target n counts ∙ ground (arith, eq_iff target target)

-- Where a term has room for a target, `add_mapping` counts it once more and no other target more or
-- less, and the count that it logs is the new one.
pub add_mapping-counted :
    (memory : Memory) (term target other : String)
    → HasRoom target (get_or term [] memory.mappings)
    → ((add_mapping memory term target).1
        ≡ some (get_or target 0 (get_or term [] memory.mappings) + 1))
      × (get_or other 0 (get_or term [] (add_mapping memory term target).0.mappings)
          ≡ get_or other 0 (get_or term [] memory.mappings) + (if target =ₛ other then 1 else 0))
unfolding add_mapping learnt_counts
add_mapping-counted memory term target other h =
    let counts = get_or term [] memory.mappings in
    let kept = prune-within (increment target counts) (length-increment target counts h) in
    let after : get_or term [] (add_mapping memory term target).0.mappings
        ≡ prune (increment target counts) =
      or_empty-get term (add_mapping memory term target).0.mappings
      ∙ (ap or_empty (get-add_mapping memory term target term)
          ∙ ground (arith, eq_iff term term)) in
    (
      ap (get target) kept ∙ get-increment target counts,
      ap (get_or other 0) (after ∙ kept) ∙ get_or-increment target other counts,
    )
