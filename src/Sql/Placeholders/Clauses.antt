-- ===== src/Sql/Placeholders/Clauses.antt =====
-- The other clauses of a statement hold no percent sign, but for the value of HAVING.
use dbbuddy.Base.{
  refl, true, Option, none, some, List, [], ◌∷◌, ◌++◌, ◌||◌, arith, Text, codes, occurrences, empty,
  upper, strip, Bool-cases, inl, inr, Holds,
}
use dbbuddy.Sql.Dialect.{Dialect}
use dbbuddy.Sql.Plan.{
  SelectItem, Join, graph_join, named_join, GroupItem, HavingItem, OrderItem, OrderBy,
  by_aggregation, by_item, by_items, Aggregation,
}
use dbbuddy.Sql.Plan
use dbbuddy.Sql.Identifiers.{quote, ref}
use dbbuddy.Sql.Clauses.{
  call, aggregated, aliased, select_part, select_parts, select_clause, normalize_join_type,
  join_part, join_parts, group_parts, having_fragment, having_clause,
}
use dbbuddy.Sql.Placeholders.Clean.{
  IsClean, percents-append, percents-upper, percents-strip, QuotesClean, percents-ref,
  percents-quote, join-IsClean,
}
use dbbuddy.Sql.Placeholders.Operands.{IsBalanced}

abbrev pub SelectIsClean : SelectItem → Type 0
SelectIsClean i = IsClean i.table × IsClean i.column × IsClean i.alias × IsClean i.aggregation

abbrev pub JoinIsClean : Join → Type 0
JoinIsClean (graph_join a b c d) = IsClean a × IsClean b × IsClean c × IsClean d
JoinIsClean (named_join table on join_type) = IsClean table × IsClean on × IsClean join_type

abbrev pub GroupIsClean : GroupItem → Type 0
GroupIsClean i = IsClean i.table × IsClean i.column

abbrev pub HavingIsClean : HavingItem → Type 0
HavingIsClean i = IsClean i.aggregation × IsClean i.table × IsClean i.column × IsClean i.operator

abbrev pub OrderIsClean : OrderItem → Type 0
OrderIsClean (i) =
    IsClean i.table
    × IsClean i.column
    × (elim i.aggregation as (λ _. Type 0) [ none ↦ Unit | some a ↦ IsClean a ])

abbrev pub AggregationIsClean : Option Aggregation → Type 0
AggregationIsClean none = Unit
AggregationIsClean (some a) = IsClean a.function × IsClean a.table × IsClean a.column

abbrev pub OrderByIsClean : OrderBy → Type 0
OrderByIsClean Plan.OrderBy.unordered = Unit
OrderByIsClean (by_aggregation direction) = Unit
OrderByIsClean (by_item o) = OrderIsClean o
OrderByIsClean (by_items os) = Holds OrderIsClean os

pub call-IsClean : (f a : Text) → IsClean f → IsClean a → IsClean (call f a)
unfolding occurrences
call-IsClean f a h k = omega (arith, percents-append)

module _ (d : Option Dialect) (q : QuotesClean d) where
  pub ref-IsClean :
      (table column : Text) → IsClean table → IsClean column → IsClean (ref d table column)
  ref-IsClean table column h k = omega (arith, percents-ref d table column q)

  aggregated-IsClean : (f e : Text) → IsClean f → IsClean e → IsClean (aggregated f e)
  unfolding aggregated
  aggregated-IsClean f e h k = ground (arith, call-IsClean f e h k)

  aliased-IsClean :
      (alias column e : Text) → IsClean alias → IsClean e → IsClean (aliased d alias column e)
  unfolding aliased occurrences
  aliased-IsClean alias column e h k =
      ground (arith, percents-append e (codes " AS " ++ quote d alias), percents-quote d alias q)

  select_part-IsClean : (i : SelectItem) → SelectIsClean i → IsClean (select_part d i)
  unfolding select_part occurrences
  select_part-IsClean i h = ground (
    arith,
    aliased-IsClean i.alias i.column (aggregated i.aggregation (ref d i.table i.column)) h.2,
    aggregated-IsClean i.aggregation (ref d i.table i.column) h.3,
    ref-IsClean i.table i.column h.0 h.1,
  )

  select_parts-AreClean :
      (is : List SelectItem) → Holds SelectIsClean is → Holds IsClean (select_parts d is)
  unfolding select_parts
  select_parts-AreClean [] h = tt
  select_parts-AreClean (i ∷ is) h = (select_part-IsClean i h.0, select_parts-AreClean is h.1)

  pub select_clause-IsClean :
      (is : List SelectItem) → Holds SelectIsClean is → IsClean (select_clause d is)
  unfolding select_clause occurrences
  select_clause-IsClean [] h = refl
  select_clause-IsClean (i ∷ is) h =
      join-IsClean (codes ", ") (select_parts d (i ∷ is)) refl (select_parts-AreClean (i ∷ is) h)

  join_type-IsClean : (t : Text) → IsClean t → IsClean (normalize_join_type t)
  unfolding normalize_join_type occurrences
  join_type-IsClean t h = ground (
    arith,
    percents-upper (strip t),
    percents-strip t,
    percents-append (upper (strip t)) (codes " JOIN"),
  )

  abbrev MaybeClean : Option Text → Type 0
  MaybeClean none = Unit
  MaybeClean (some t) = IsClean t

  graph_text-IsClean :
      (a b c e : Text)
      → IsClean a
      → IsClean b
      → IsClean c
      → IsClean e
      → IsClean (
          codes "JOIN "
          ++ (quote d b ++ (codes " ON " ++ (ref d a c ++ (codes " = " ++ ref d b e)))))
  unfolding occurrences
  graph_text-IsClean a b c e ha hb hc he =
      omega
        (arith, percents-append, percents-quote d b q, ref-IsClean a c ha hc, ref-IsClean b e hb he)

  named_text-IsClean :
      (table on join_type : Text)
      → IsClean table
      → IsClean on
      → IsClean join_type
      → IsClean
          (normalize_join_type join_type ++ (codes " " ++ (quote d table ++ (codes " ON " ++ on))))
  unfolding occurrences
  named_text-IsClean table on join_type h k l =
      omega (arith, percents-append, percents-quote d table q, join_type-IsClean join_type l)

  join_part-IsClean : (j : Join) → JoinIsClean j → MaybeClean (join_part d j)
  unfolding join_part
  join_part-IsClean (graph_join a b c e) h =
      elim (Bool-cases (empty a || empty b || empty c || empty e)) [
        | inl x ↦ rw x tt
        | inr x ↦ rw x (graph_text-IsClean a b c e h.0 h.1 h.2 h.3)
      ]
  join_part-IsClean (named_join table on join_type) h =
      elim (Bool-cases (empty table || empty on)) [
        | inl x ↦ rw x tt
        | inr x ↦ rw x (named_text-IsClean table on join_type h.0 h.1 h.2)
      ]

  pub join_parts-AreClean :
      (js : List Join) → Holds JoinIsClean js → Holds IsClean (join_parts d js)
  unfolding join_parts
  join_parts-AreClean [] h = tt
  join_parts-AreClean (j ∷ js) h =
      go (join_part d j) (join_part-IsClean j h.0) (join_parts-AreClean js h.1)
    where
      go :
          (o : Option Text)
          → MaybeClean o
          → Holds IsClean (join_parts d js)
          → Holds IsClean (elim o [ none ↦ join_parts d js | some part ↦ part ∷ join_parts d js ])
      go none m r = r
      go (some t) m r = (m, r)

  pub group_parts-AreClean :
      (gs : List GroupItem) → Holds GroupIsClean gs → Holds IsClean (group_parts d gs)
  unfolding group_parts
  group_parts-AreClean [] h = tt
  group_parts-AreClean (g ∷ gs) h = elim (Bool-cases (empty g.column)) [
    | inl e ↦ rw e (group_parts-AreClean gs h.1)
    | inr e ↦ rw e (ref-IsClean g.table g.column h.0.0 h.0.1, group_parts-AreClean gs h.1)
  ]

  having_fragment-IsBalanced :
      (i : HavingItem) → HavingIsClean i → IsBalanced (having_fragment d true i)
  unfolding having_fragment occurrences
  having_fragment-IsBalanced i h = omega (
    arith,
    percents-append,
    call-IsClean i.aggregation (ref d i.table i.column) h.0 (ref-IsClean i.table i.column h.1 h.2),
    h.3,
  )

  pub having_clause-IsBalanced :
      (is : List HavingItem) → Holds HavingIsClean is → IsBalanced (having_clause d true is)
  unfolding having_clause occurrences
  having_clause-IsBalanced [] h = refl
  having_clause-IsBalanced (i ∷ is) h = ground (arith, having_fragment-IsBalanced i h.0)
