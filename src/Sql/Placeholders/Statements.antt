-- ===== src/Sql/Placeholders/Statements.antt =====
-- The whole statement: one placeholder for each value to bind.
use dbbuddy.Base.{
  ◌≡◌, refl, Bool, true, Option, none, some, List, [], ◌∷◌, ◌++◌, arith, Text, codes, occurrences,
  empty, length, length-append, Bool-cases, inl, inr, Holds, join, join_rest, subst,
}
use dbbuddy.Sql.Dialect.{Dialect, Engine, get_dialect}
use dbbuddy.Sql.Operators.{Result, ok, err, Fragment, ◌>>=◌}
use dbbuddy.Sql.Plan.{Body, Plan, plan, Specs, nil, cons, Spec, spec, Subquery, no_plan, subplan}
use dbbuddy.Sql.Clauses.{
  join_parts, group_parts, having_clause, order_items, order_clause, limit_rows, limit_clause,
}
use dbbuddy.Sql.Compiler.{
  Rendered, add_fragment, where_clause, group_clause, spaced, statement, missing_tables, checked,
  assemble, engine_of, compile_sql, render_conditions, render_spec, compile_subquery,
}
use dbbuddy.Sql.Placeholders.Clean.{
  percents, IsClean, percents-append, QuotesClean, get_dialect-QuotesClean, percents-quote,
  join-IsClean,
}
use dbbuddy.Sql.Placeholders.Operands.{IsBalanced, AllOk}
use dbbuddy.Sql.Placeholders.Conditions.{FieldsAreClean, OptionBalanced, fields-IsBalanced}
use dbbuddy.Sql.Placeholders.Clauses.{
  SelectIsClean, JoinIsClean, GroupIsClean, HavingIsClean, OrderByIsClean, AggregationIsClean,
  select_clause-IsClean, join_parts-AreClean, group_parts-AreClean, having_clause-IsBalanced,
}
use dbbuddy.Sql.Placeholders.Ordering.{
  order_clause-IsClean, top_clause-IsClean, limit_clause-IsClean,
}

-- No name, operator, function or written-out join condition holds a percent sign.
pub record BodyIsClean (b : Body) : Type 0 where
  pub select : Holds SelectIsClean b.select
  pub base_table : IsClean b.base_table
  pub joins : Holds JoinIsClean b.joins
  pub group_by : Holds GroupIsClean b.group_by
  pub having : Holds HavingIsClean b.having
  pub order_by : OrderByIsClean b.order_by
  pub aggregation : AggregationIsClean b.aggregation

abbrev mutual
  pub PlanIsClean : Plan → Type 0
  PlanIsClean (plan b conditions) = BodyIsClean b × SpecsAreClean conditions

  pub SpecsAreClean : Specs → Type 0
  SpecsAreClean nil = Unit
  SpecsAreClean (cons s rest) = SpecIsClean s × SpecsAreClean rest

  pub SpecIsClean : Spec → Type 0
  SpecIsClean (spec f sub) = FieldsAreClean f × SubqueryIsClean sub

  pub SubqueryIsClean : Subquery → Type 0
  SubqueryIsClean no_plan = Unit
  SubqueryIsClean (subplan p) = PlanIsClean p

-- The fragments hold as many percent signs, together, as there are values.
abbrev RenderedIsBalanced : Rendered → Type 0
RenderedIsBalanced r =
    (sep : Text) → IsClean sep → percents (join sep r.fragments) ≡ length r.values

spaced-same : (t : Text) → percents (spaced t) ≡ percents t
unfolding spaced occurrences
spaced-same [] = refl
spaced-same (c ∷ t) = omega arith

spaced-IsClean : (t : Text) → IsClean t → IsClean (spaced t)
spaced-IsClean t h = omega (arith, spaced-same t)

where_clause-sum :
    (fs : List Text) → percents (where_clause fs) ≡ percents (join (codes " AND ") fs)
unfolding where_clause occurrences join
where_clause-sum [] = refl
where_clause-sum (f ∷ fs) = omega arith

group_clause-IsClean : (gs : List Text) → Holds IsClean gs → IsClean (group_clause gs)
unfolding group_clause occurrences join
group_clause-IsClean [] h = refl
group_clause-IsClean (g ∷ gs) h = omega (arith, join-IsClean (codes ", ") (g ∷ gs) refl h)

separator-IsClean : IsClean (codes " AND ")
unfolding occurrences
separator-IsClean = refl

space-IsClean : IsClean (codes " ")
unfolding occurrences
space-IsClean = refl

module _ (d : Option Dialect) (q : QuotesClean d) (engine : Text) (b : Body)
    (h : BodyIsClean b) where
  statement-IsBalanced :
      (w : Rendered) → RenderedIsBalanced w → IsBalanced (statement d true engine b w)
  unfolding statement occurrences
  statement-IsBalanced w r = omega (
    arith,
    percents-append,
    top_clause-IsClean engine (limit_rows b.limit),
    select_clause-IsClean d q b.select h.select,
    percents-quote d b.base_table q,
    h.base_table,
    spaced-IsClean (join (codes " ") (join_parts d b.joins)) (
        join-IsClean (codes " ") (join_parts d b.joins) space-IsClean
          (join_parts-AreClean d q b.joins h.joins)),
    spaced-same (where_clause w.fragments),
    where_clause-sum w.fragments,
    r (codes " AND ") separator-IsClean,
    spaced-IsClean (group_clause (group_parts d b.group_by)) (
        group_clause-IsClean (group_parts d b.group_by)
          (group_parts-AreClean d q b.group_by h.group_by)),
    spaced-same (having_clause d true b.having).sql,
    having_clause-IsBalanced d q b.having h.having,
    spaced-IsClean (order_clause d b.group_by b.aggregation (order_items b.aggregation b.order_by))
        (order_clause-IsClean d q b.group_by b.aggregation b.order_by h.aggregation h.order_by),
    spaced-IsClean (limit_clause engine (limit_rows b.limit))
        (limit_clause-IsClean engine (limit_rows b.limit)),
    length-append w.values (having_clause d true b.having).params,
  )

  checked-IsBalanced :
      (ts : List Text) (f : Fragment) → IsBalanced f → AllOk IsBalanced (checked ts f)
  unfolding checked
  checked-IsBalanced [] f k = k
  checked-IsBalanced (t ∷ ts) f k = tt

  assemble-IsBalanced :
      (conditions : Specs) (r : Result Rendered)
      → AllOk RenderedIsBalanced r
      → AllOk IsBalanced (assemble d true engine b conditions r)
  unfolding assemble
  assemble-IsBalanced conditions (err e) k = elim (Bool-cases (empty b.base_table)) [
    | inl x ↦ rw x tt
    | inr x ↦ rw x tt
  ]
  assemble-IsBalanced conditions (ok w) k = elim (Bool-cases (empty b.base_table)) [
    | inl x ↦ rw x tt
    | inr x ↦ rw x (
        checked-IsBalanced (missing_tables b conditions) (statement d true engine b w)
          (statement-IsBalanced w k))
  ]

join_rest-sum :
    (sep : Text) (fs : List Text)
    → IsClean sep
    → percents (join_rest sep fs) ≡ percents (join sep fs)
unfolding join join_rest
join_rest-sum sep [] h = refl
join_rest-sum sep (f ∷ fs) h = omega (arith, percents-append sep (f ++ join_rest sep fs))

add-IsBalanced :
    (f : Option Fragment) (r : Rendered)
    → OptionBalanced f
    → RenderedIsBalanced r
    → RenderedIsBalanced (add_fragment f r)
unfolding add_fragment join
add-IsBalanced none r h k sep c = k sep c
add-IsBalanced (some f) r h k sep c = omega (
  arith,
  percents-append f.sql (join_rest sep r.fragments),
  join_rest-sum sep r.fragments c,
  k sep c,
  length-append f.params r.values,
)

nothing-IsBalanced : RenderedIsBalanced (record { fragments = []; values = [] })
unfolding join occurrences
nothing-IsBalanced sep c = refl

bind-IsBalanced :
    (m : Result (Option Fragment)) (n : Result Rendered)
    → AllOk OptionBalanced m
    → AllOk RenderedIsBalanced n
    → AllOk RenderedIsBalanced (m >>= λ f. n >>= λ r. ok (add_fragment f r))
bind-IsBalanced (err e) n h k = tt
bind-IsBalanced (ok f) (err e) h k = tt
bind-IsBalanced (ok f) (ok r) h k = add-IsBalanced f r h k

module _ (installed : Engine → Bool) where
  mutual
    unfolding compile_sql

    plan-IsBalanced :
        (p : Plan) (engine : Text)
        → PlanIsClean p
        → AllOk IsBalanced (compile_sql installed true engine p)
    plan-IsBalanced (plan b conditions) engine h =
        let d = get_dialect installed engine in
        let q = get_dialect-QuotesClean installed engine in
        assemble-IsBalanced d q engine b h.0 conditions
          (render_conditions installed true d conditions)
          (conditions-AreBalanced conditions d q h.1)

    conditions-AreBalanced :
        (s : Specs) (d : Option Dialect)
        → QuotesClean d
        → SpecsAreClean s
        → AllOk RenderedIsBalanced (render_conditions installed true d s)
    conditions-AreBalanced nil d q h = nothing-IsBalanced
    conditions-AreBalanced (cons s rest) d q h =
        bind-IsBalanced (render_spec installed true d s) (render_conditions installed true d rest)
          (spec-IsBalanced s d q h.0) (conditions-AreBalanced rest d q h.1)

    spec-IsBalanced :
        (s : Spec) (d : Option Dialect)
        → QuotesClean d
        → SpecIsClean s
        → AllOk OptionBalanced (render_spec installed true d s)
    spec-IsBalanced (spec f sub) d q h =
        fields-IsBalanced d f (compile_subquery installed true d sub) q h.0
          (subquery-IsBalanced sub d h.1)

    subquery-IsBalanced :
        (s : Subquery) (d : Option Dialect)
        → SubqueryIsClean s
        → AllOk IsBalanced (compile_subquery installed true d s)
    subquery-IsBalanced no_plan d h = tt
    subquery-IsBalanced (subplan p) d h = plan-IsBalanced p (engine_of d) h

  -- If no name, operator, function or written-out join condition of the plan and its subqueries
  -- holds a percent sign, a parameterized statement has as many percent signs as values to bind.
  pub compile_sql-IsBalanced :
      (engine : Text) (p : Plan) (f : Fragment)
      → PlanIsClean p
      → compile_sql installed true engine p ≡ ok f
      → percents f.sql ≡ length f.params
  compile_sql-IsBalanced engine p f h e =
      subst (λ r. AllOk IsBalanced r) e (plan-IsBalanced p engine h)
