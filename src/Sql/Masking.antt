-- ===== src/Sql/Masking.antt =====
-- The text of a parameterized statement does not depend on the values.
pub mod Predicates
use dbbuddy.Base.{
  ℕ, ◌≡◌, refl, sym, ap, ap₂, ◌∙◌, Bool, true, false, not, Option, none, some, List, [], ◌∷◌, ◌++◌,
  if◌then◌else◌, arith, Text, codes, empty, Bool-cases, inl, inr, map, any, ◌||◌,
}
use mathlib.Core.Option
use dbbuddy.Sql.Dialect.{Dialect, Engine, get_dialect}
use dbbuddy.Sql.Value.{Value, null, str, other, Operand}
use dbbuddy.Sql.Operators.{Result, ok, err, Error, missing_base_table, Fragment, ◌>>=◌, plain}
use dbbuddy.Sql.Plan.{
  Body, HavingItem, Fields, Plan, plan, Specs, nil, cons, Spec, spec, Subquery, no_plan, subplan,
}
use dbbuddy.Sql.Clauses.{having_clause, having_fragment, is_none}
use dbbuddy.Sql.Compiler.{
  Rendered, add_fragment, statement, missing_tables, referenced_tables, where_tables, having_tables,
  checked, assemble, engine_of, compile_sql, render_conditions, render_spec, compile_subquery,
  item_tables,
}
use Predicates.{mask_operand, mask_fields, sql_of, maybe_sql, fields-mask, is_none-mask}

pub mask_having : HavingItem → HavingItem
mask_having h = record h { value = mask_operand h.value }

mask_body : Body → Body
mask_body b = record b { having = map mask_having b.having }

-- Every value replaced by the empty text, but for `None`; collections keep their length.
mutual
  pub mask_plan : Plan → Plan
  mask_plan (plan b conditions) = plan (mask_body b) (mask_specs conditions)

  pub mask_specs : Specs → Specs
  mask_specs nil = nil
  mask_specs (cons s rest) = cons (mask_spec s) (mask_specs rest)

  pub mask_spec : Spec → Spec
  mask_spec (spec f sub) = spec (mask_fields f) (mask_subquery sub)

  pub mask_subquery : Subquery → Subquery
  mask_subquery no_plan = no_plan
  mask_subquery (subplan p) = subplan (mask_plan p)

having_tables-mask : (hs : List HavingItem) → having_tables (map mask_having hs) ≡ having_tables hs
unfolding having_tables mask_having
having_tables-mask [] = refl
having_tables-mask (h ∷ hs) = ap (◌++◌ (item_tables h.table h.column)) (having_tables-mask hs)

where_tables-mask : (s : Specs) → where_tables (mask_specs s) ≡ where_tables s
unfolding where_tables mask_specs mask_fields
where_tables-mask nil = refl
where_tables-mask (cons (spec f sub) rest) =
    ap (◌++◌ (item_tables f.table f.column)) (where_tables-mask rest)

missing_tables-mask :
    (b : Body) (s : Specs) → missing_tables (mask_body b) (mask_specs s) ≡ missing_tables b s
unfolding missing_tables mask_body
missing_tables-mask b s = rw (where_tables-mask s, having_tables-mask b.having) refl

having_clause-mask :
    (d : Option Dialect) (hs : List HavingItem)
    → (having_clause d true (map mask_having hs)).sql ≡ (having_clause d true hs).sql
unfolding having_clause having_fragment mask_having
having_clause-mask d [] = refl
having_clause-mask d (h ∷ hs) = rw (is_none-mask h.value) (ground arith)

abbrev fragments_of : Result Rendered → Result (List Text)
fragments_of (ok r) = ok r.fragments
fragments_of (err e) = err e

statement-mask :
    (d : Option Dialect) (engine : Text) (b : Body) (r r' : Rendered)
    → r'.fragments ≡ r.fragments
    → (statement d true engine (mask_body b) r').sql ≡ (statement d true engine b r).sql
unfolding statement mask_body
statement-mask d engine b r r' h = rw (h, having_clause-mask d b.having) refl

checked-mask :
    (ts : List Text) (f g : Fragment)
    → f.sql ≡ g.sql
    → sql_of (checked ts f) ≡ sql_of (checked ts g)
unfolding checked
checked-mask [] f g h = ap ok h
checked-mask (t ∷ ts) f g h = refl

checked-statement-mask :
    (d : Option Dialect) (engine : Text) (b : Body) (s : Specs) (r r' : Rendered)
    → r'.fragments ≡ r.fragments
    → sql_of (
        checked
          (missing_tables (mask_body b) (mask_specs s))
          (statement d true engine (mask_body b) r'))
      ≡ sql_of (checked (missing_tables b s) (statement d true engine b r))
checked-statement-mask d engine b s r r' h = rw (missing_tables-mask b s) (
    checked-mask (missing_tables b s) (statement d true engine (mask_body b) r')
      (statement d true engine b r) (statement-mask d engine b r r' h))

rendered-mask :
    (d : Option Dialect) (engine : Text) (b : Body) (s : Specs) (r r' : Result Rendered)
    → fragments_of r' ≡ fragments_of r
    → sql_of (
        r' >>= λ w.
        checked
          (missing_tables (mask_body b) (mask_specs s))
          (statement d true engine (mask_body b) w))
      ≡ sql_of (r >>= λ w. checked (missing_tables b s) (statement d true engine b w))
rendered-mask d engine b s (ok r) (ok r') h = checked-statement-mask d engine b s r r' (cc)
rendered-mask d engine b s (ok r) (err e) h = cc
rendered-mask d engine b s (err e) (ok r') h = cc
rendered-mask d engine b s (err e) (err x) h = cc

assemble-mask :
    (d : Option Dialect) (engine : Text) (b : Body) (s : Specs) (r r' : Result Rendered)
    → fragments_of r' ≡ fragments_of r
    → sql_of (assemble d true engine (mask_body b) (mask_specs s) r')
      ≡ sql_of (assemble d true engine b s r)
unfolding mask_body
assemble-mask d engine b s r r' h = elim (Bool-cases (empty b.base_table)) [
  | inl e ↦ unfold assemble mask_body in rw e refl
  | inr e ↦ unfold assemble in rw e (rendered-mask d engine b s r r' h)
]

add_fragment-mask :
    (f f' : Result (Option Fragment)) (r r' : Result Rendered)
    → maybe_sql f' ≡ maybe_sql f
    → fragments_of r' ≡ fragments_of r
    → fragments_of (f' >>= λ x. r' >>= λ y. ok (add_fragment x y))
      ≡ fragments_of (f >>= λ x. r >>= λ y. ok (add_fragment x y))
unfolding add_fragment
add_fragment-mask (ok (some f)) (ok (some g)) (ok r) (ok s) h k = cc
add_fragment-mask f f' r r' h k = ground arith

module _ (installed : Engine → Bool) where
  mutual
    unfolding compile_sql mask_plan

    plan-mask :
        (p : Plan) (engine : Text)
        → sql_of (compile_sql installed true engine (mask_plan p))
          ≡ sql_of (compile_sql installed true engine p)
    plan-mask (plan b conditions) engine =
        let d = get_dialect installed engine in
        assemble-mask d engine b conditions (render_conditions installed true d conditions)
          (render_conditions installed true d (mask_specs conditions))
          (conditions-mask conditions d)

    conditions-mask :
        (s : Specs) (d : Option Dialect)
        → fragments_of (render_conditions installed true d (mask_specs s))
          ≡ fragments_of (render_conditions installed true d s)
    conditions-mask nil d = refl
    conditions-mask (cons s rest) d =
        add_fragment-mask (render_spec installed true d s)
          (render_spec installed true d (mask_spec s)) (render_conditions installed true d rest)
          (render_conditions installed true d (mask_specs rest)) (spec-mask s d)
          (conditions-mask rest d)

    spec-mask :
        (s : Spec) (d : Option Dialect)
        → maybe_sql (render_spec installed true d (mask_spec s))
          ≡ maybe_sql (render_spec installed true d s)
    spec-mask (spec f sub) d =
        fields-mask d f (compile_subquery installed true d sub)
          (compile_subquery installed true d (mask_subquery sub)) (subquery-mask sub d)

    subquery-mask :
        (s : Subquery) (d : Option Dialect)
        → sql_of (compile_subquery installed true d (mask_subquery s))
          ≡ sql_of (compile_subquery installed true d s)
    subquery-mask no_plan d = refl
    subquery-mask (subplan p) d = plan-mask p (engine_of d)

  -- The text of a parameterized statement, or the error, is that of the plan with every text and
  -- number in its conditions, its HAVING and its subqueries replaced by the empty text: of the
  -- values it depends only on which are `None` and on how long the collections are.
  pub compile_sql-mask :
      (engine : Text) (p : Plan)
      → sql_of (compile_sql installed true engine (mask_plan p))
        ≡ sql_of (compile_sql installed true engine p)
  compile_sql-mask engine p = plan-mask p engine
