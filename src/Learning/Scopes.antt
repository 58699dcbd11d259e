-- ===== src/Learning/Scopes.antt =====
-- What a full term cannot learn.
use dbbuddy.Base.{
  ℕ, ◌+◌, ◌≤◌, ◌<◌, ◌≡◌, refl, ap, ◌∙◌, ltb, none, some, [], ◌∷◌, ◌++◌, length, length-append,
  String, eq_iff, Holds, arith, Bool-cases, inl, inr,
}
use dbbuddy.Base.Equality.{string_eq}
use dbbuddy.Base.Dict.{get, put, remove, get_or, get-remove}
use dbbuddy.Learning.{max_mappings_per_term, Counts, Memory, increment, lowest, prune, add_mapping}

put-new :
    (target : String) (n : ℕ) (counts : Counts)
    → get target counts ≡ none
    → put target n counts ≡ counts ++ (target, n) ∷ []
unfolding get put
put-new target n [] h = refl
put-new target n ((j, m) ∷ counts) h = ground (arith, put-new target n counts)

lowest-new :
    (best target : String) (n : ℕ) (counts : Counts)
    → 2 ≤ n
    → Holds (λ e. 2 ≤ e.1) counts
    → lowest best n (counts ++ (target, 1) ∷ []) ≡ target
unfolding lowest
lowest-new best target n [] h k = ground arith
lowest-new best target n ((t, m) ∷ counts) h k = elim (Bool-cases (ltb m n)) [
  | inl e ↦ rw (e, lowest) (lowest-new t target m counts k.0 k.1)
  | inr e ↦ rw (e, lowest) (lowest-new best target n counts h k.1)
]

prune-over :
    (t : String) (n : ℕ) (counts : Counts)
    → max_mappings_per_term < length ((t, n) ∷ counts)
    → prune ((t, n) ∷ counts) ≡ remove (lowest t n counts) ((t, n) ∷ counts)
unfolding prune
prune-over t n counts h = ground (arith, h)

increment-new :
    (target : String) (counts : Counts)
    → get target counts ≡ none
    → increment target counts ≡ put target 1 counts
unfolding increment
increment-new target counts g =
    ap (λ o. put target ((elim o as (λ x. ℕ) [ none ↦ 0 | some v ↦ v ]) + 1) counts) g

full_counts :
    (target : String) (counts : Counts)
    → length counts ≡ max_mappings_per_term
    → get target counts ≡ none
    → Holds (λ e. 2 ≤ e.1) counts
    → get target (prune (increment target counts)) ≡ none
full_counts target [] l g h = absurd (omega arith)
full_counts target ((t, n) ∷ counts) l g h = rw (increment-new target ((t, n) ∷ counts) g) (
    rw (put-new target 1 ((t, n) ∷ counts) g) (
      rw
        (prune-over t n (counts ++ (target, 1) ∷ [])
          (omega (arith, l, length-append counts ((target, 1) ∷ []))))
        (rw (lowest-new t target n counts h.0 h.1) (
          rw (get-remove target target ((t, n) ∷ (counts ++ (target, 1) ∷ [])))
            (ground (arith, eq_iff target target))))))

-- A term whose three targets have each been counted at least twice cannot learn a fourth: the new
-- one, counted once, is the one that is pruned, and the last lookup raises.
pub add_mapping-full :
    (memory : Memory) (term target : String) (counts : Counts)
    → get term memory.mappings ≡ some counts
    → length counts ≡ max_mappings_per_term
    → get target counts ≡ none
    → Holds (λ e. 2 ≤ e.1) counts
    → (add_mapping memory term target).1 ≡ none
unfolding add_mapping
add_mapping-full memory term target counts e l g h =
    let found : get_or term [] memory.mappings ≡ counts =
      ap (λ o. elim o as (λ x. Counts) [ none ↦ [] | some v ↦ v ]) e in
    ap (λ c. get target (prune (increment target c))) found ∙ full_counts target counts l g h
