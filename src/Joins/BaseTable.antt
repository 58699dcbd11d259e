-- ===== src/Joins/BaseTable.antt =====
-- `determine_base_table` does not depend on the order of the tables.
use dbbuddy.Base.{
  ◌≡◌, ◌↔◌, refl, sym, ap, subst, Bool, true, false, some, List, [], ◌∷◌, Text, same, same_iff,
  arith, Bool-cases, inl, inr,
}
use dbbuddy.Base.Equality.{text_eq}
use dbbuddy.Base.Distinct.{is_in}
use dbbuddy.Joins.Graph.{Graph, name_lt, Score, score, score_lt, best_table, determine_base_table}

name_lt_irreflexive : (t : Text) → name_lt t t ≡ false
unfolding name_lt
name_lt_irreflexive [] = refl
name_lt_irreflexive (c ∷ t) = ground (arith, name_lt_irreflexive t)

name_lt_trans : (t u v : Text) → name_lt t u ≡ true → name_lt u v ≡ true → name_lt t v ≡ true
unfolding name_lt
name_lt_trans t [] v h k = cc
name_lt_trans t (d ∷ u) [] h k = cc
name_lt_trans [] (d ∷ u) (e ∷ v) h k = refl
name_lt_trans (c ∷ t) (d ∷ u) (e ∷ v) h k = ground (arith, h, k, name_lt_trans t u v)

name_lt_total : (t u : Text) → name_lt t u ≡ false → name_lt u t ≡ false → t ≡ u
unfolding name_lt
name_lt_total [] [] h k = refl
name_lt_total [] (d ∷ u) h k = cc
name_lt_total (c ∷ t) [] h k = cc
name_lt_total (c ∷ t) (d ∷ u) h k = ground (arith, h, k, name_lt_total t u)

score_lt_irreflexive : (s : Score) → score_lt s s ≡ false
unfolding score_lt
score_lt_irreflexive (a, b, s) = ground (arith, name_lt_irreflexive s)

score_lt_trans : (r s t : Score) → score_lt r s ≡ true → score_lt s t ≡ true → score_lt r t ≡ true
unfolding score_lt
score_lt_trans (a, b, r) (c, d, s) (e, f, t) h k = ground (arith, h, k, name_lt_trans r s t)

score_lt_total : (s t : Score) → score_lt s t ≡ false → score_lt t s ≡ false → s ≡ t
unfolding score_lt
score_lt_total (a, b, s) (c, d, t) h k = ground (arith, h, k, name_lt_total s t)

module _ (graph : Graph) where
  abbrev ranks_below : Text → Text → Bool
  ranks_below t u = score_lt (score graph t) (score graph u)

  ranks_trans :
      (t u v : Text) → ranks_below t u ≡ true → ranks_below u v ≡ true → ranks_below t v ≡ true
  ranks_trans t u v = score_lt_trans (score graph t) (score graph u) (score graph v)

  ranks_total : (t u : Text) → ranks_below t u ≡ false → ranks_below u t ≡ false → t ≡ u
  unfolding score
  ranks_total t u h k = ap (λ (s : Score). s.2) (score_lt_total (score graph t) (score graph u) h k)

  -- A member below which no other ranks higher.
  record IsBest (tables : List Text) (best : Text) : Type 0 where
    is_member : is_in best tables ≡ true
    is_top : (t : Text) → is_in t tables ≡ true → ranks_below best t ≡ false

  IsBest-unique :
      (xs ys : List Text) (b c : Text)
      → ((t : Text) → (is_in t xs ≡ true) ↔ (is_in t ys ≡ true))
      → IsBest xs b
      → IsBest ys c
      → b ≡ c
  IsBest-unique xs ys b c e h k =
      ranks_total b c (h.is_top c ((e c).1 k.is_member)) (k.is_top b ((e b).0 h.is_member))

  top_of_rest :
      (b t u : Text) (ts : List Text) (r : Text)
      → IsBest (t ∷ ts) r
      → ranks_below b t ≡ true
      → is_in u (b ∷ t ∷ ts) ≡ true
      → ranks_below r u ≡ false
  top_of_rest b t u ts r h l m = elim (Bool-cases (same u b)) [
    | inr e ↦ h.is_top u (ground (arith, m, e))
    | inl e ↦
        let own : b ≡ u = sym ((same_iff u b).0 e) in
        let below_t = h.is_top t (ground (arith, same_iff t t)) in
        subst (λ x. ranks_below r x ≡ false) own (ground (arith, ranks_trans r b t, l, below_t))
  ]

  top_of_kept :
      (b t u : Text) (ts : List Text) (r : Text)
      → IsBest (b ∷ ts) r
      → ranks_below b t ≡ false
      → is_in u (b ∷ t ∷ ts) ≡ true
      → ranks_below r u ≡ false
  top_of_kept b t u ts r h l m = elim (Bool-cases (same u t)) [
    | inr e ↦ h.is_top u (ground (arith, m, e))
    | inl e ↦
        let own : t ≡ u = sym ((same_iff u t).0 e) in
        let below_b = h.is_top b (ground (arith, same_iff b b)) in
        subst (λ x. ranks_below r x ≡ false) own
          (elim (Bool-cases (ranks_below t b)) [
            | inl k ↦ ground (arith, ranks_trans r t b, k, below_b)
            | inr k ↦ subst (λ x. ranks_below r x ≡ false) (ranks_total b t l k) below_b
          ])
  ]

  best_table-IsBest : (b : Text) (ts : List Text) → IsBest (b ∷ ts) (best_table graph b ts)
  unfolding best_table
  best_table-IsBest b [] = record {
    is_member = ground (arith, same_iff b b);
    is_top = λ t m.
        let own : b ≡ t = ground (arith, m, same_iff t b) in
        subst (λ x. ranks_below b x ≡ false) own (score_lt_irreflexive (score graph b));
  }
  best_table-IsBest b (t ∷ ts) = elim (Bool-cases (ranks_below b t)) [
    | inl l ↦
        let h = best_table-IsBest t ts in
        rw (l, best_table)
          (record {
            is_member = ground (arith, h.is_member);
            is_top = λ u m. top_of_rest b t u ts (best_table graph t ts) h l m;
          })
    | inr l ↦
        let h = best_table-IsBest b ts in
        rw (l, best_table)
          (record {
            is_member = ground (arith, h.is_member);
            is_top = λ u m. top_of_kept b t u ts (best_table graph b ts) h l m;
          })
  ]

-- Two lists with the same tables, in whatever order and however often each is there, have the same
-- base table, in every graph.
pub determine_base_table_unordered :
    (graph : Graph) (xs ys : List Text)
    → ((t : Text) → (is_in t xs ≡ true) ↔ (is_in t ys ≡ true))
    → determine_base_table xs graph ≡ determine_base_table ys graph
unfolding determine_base_table
determine_base_table_unordered graph [] [] e = refl
determine_base_table_unordered graph [] (y ∷ ys) e = absurd (ground (arith, e y, same_iff y y))
determine_base_table_unordered graph (x ∷ xs) [] e = absurd (ground (arith, e x, same_iff x x))
determine_base_table_unordered graph (x ∷ xs) (y ∷ ys) e = ap some (
    IsBest-unique graph (x ∷ xs) (y ∷ ys) _ _ e (best_table-IsBest graph x xs)
      (best_table-IsBest graph y ys))
