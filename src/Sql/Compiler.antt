-- ===== src/Sql/Compiler.antt =====
-- `compile_sql` of dbbuddy_core/sql/compiler.py: scope, assembly, and the recursion through
-- subqueries.
use dbbuddy.Base.{
  Bool, not, Option, none, some, List, [], ◌∷◌, ◌++◌, if◌then◌else◌, Text, codes, empty, lower,
  member, join, keep,
}
use dbbuddy.Sql.Dialect.{Engine, Dialect, get_dialect}
use dbbuddy.Sql.Value.{Operand}
use dbbuddy.Sql.Operators.{
  Result, ok, err, invalid_condition, missing_base_table, not_in_scope, ◌>>=◌, Fragment,
}
use dbbuddy.Sql.Plan.{
  SelectItem, Join, graph_join, named_join, GroupItem, HavingItem, OrderItem, Body, Plan, plan,
  Specs, nil, cons, Spec, spec, Subquery, no_plan, subplan,
}
use dbbuddy.Sql.Identifiers.{quote, qualifier_of}
use dbbuddy.Sql.Conditions.{render_fields}
use dbbuddy.Sql.Clauses.{
  select_clause, join_parts, group_parts, having_clause, order_items, order_clause, limit_rows,
  top_clause, limit_clause,
}

-- A table name in lower case, unless it is missing.
abbrev pub named : Text → List Text
named [] = []
named (c ∷ t) = lower (c ∷ t) ∷ []

unfoldable pub join_tables : List Join → List Text
join_tables [] = []
join_tables (graph_join left_table right_table left_key right_key ∷ js) =
    named right_table ++ (named left_table ++ join_tables js)
join_tables (named_join table on join_type ∷ js) = named table ++ join_tables js

unfoldable pub tables_in_scope : Text → List Join → List Text
unfolding join_tables lower
tables_in_scope base_table joins = named base_table ++ join_tables joins

-- What one item refers to: its table, and the qualifier of its column.
abbrev pub item_tables : Text → Text → List Text
item_tables table column = named table ++ qualifier_of column

unfoldable pub select_tables : List SelectItem → List Text
select_tables [] = []
select_tables (i ∷ is) = item_tables i.table i.column ++ select_tables is

unfoldable pub group_tables : List GroupItem → List Text
group_tables [] = []
group_tables (i ∷ is) = item_tables i.table i.column ++ group_tables is

unfoldable pub having_tables : List HavingItem → List Text
having_tables [] = []
having_tables (i ∷ is) = item_tables i.table i.column ++ having_tables is

unfoldable pub order_tables : List OrderItem → List Text
order_tables [] = []
order_tables (i ∷ is) = item_tables i.table i.column ++ order_tables is

unfoldable pub where_tables : Specs → List Text
where_tables nil = []
where_tables (cons (spec f sub) rest) = item_tables f.table f.column ++ where_tables rest

unfoldable pub referenced_tables : Body → Specs → List Text
unfolding select_tables where_tables group_tables having_tables order_tables lower qualifier_of
referenced_tables b conditions =
    select_tables b.select
    ++ (where_tables conditions
        ++ (group_tables b.group_by
            ++ (having_tables b.having ++ order_tables (order_items b.aggregation b.order_by))))

-- `_assert_tables_in_scope`, where there is a base table.
unfoldable pub missing_tables : Body → Specs → List Text
unfolding referenced_tables tables_in_scope member
missing_tables b conditions =
    keep (λ t. not (member t (tables_in_scope b.base_table b.joins)))
      (referenced_tables b conditions)

-- The rendered conditions: their fragments, and all their values in order.
pub record Rendered : Type 0 where
  pub fragments : List Text
  pub values : List Operand

unfoldable pub add_fragment : Option Fragment → Rendered → Rendered
add_fragment none r = r
add_fragment (some f) r = record { fragments = f.sql ∷ r.fragments; values = f.params ++ r.values }

unfoldable pub where_clause : List Text → Text
unfolding join
where_clause [] = []
where_clause (f ∷ fs) = codes "WHERE " ++ join (codes " AND ") (f ∷ fs)

unfoldable pub group_clause : List Text → Text
unfolding join
group_clause [] = []
group_clause (g ∷ gs) = codes "GROUP BY " ++ join (codes ", ") (g ∷ gs)

-- ` clause`, unless the clause is empty.
unfoldable pub spaced : Text → Text
spaced [] = []
spaced (c ∷ t) = 32 ∷ c ∷ t

unfoldable pub statement : Option Dialect → Bool → Text → Body → Rendered → Fragment
unfolding spaced where_clause group_clause join
statement dialect parameterize engine b w =
    let having = having_clause dialect parameterize b.having in
    let limit = limit_rows b.limit in
    record {
      sql =
          codes "SELECT "
          ++ (top_clause engine limit
              ++ (select_clause dialect b.select
                  ++ (codes " FROM "
                      ++ (quote dialect b.base_table
                          ++ (spaced (join (codes " ") (join_parts dialect b.joins))
                              ++ (spaced (where_clause w.fragments)
                                  ++ (spaced (group_clause (group_parts dialect b.group_by))
                                      ++ (spaced having.sql
                                          ++ (spaced (
                                                order_clause dialect b.group_by b.aggregation
                                                  (order_items b.aggregation b.order_by))
                                              ++ spaced (limit_clause engine limit))))))))));
      params = w.values ++ having.params;
    }

unfoldable pub checked : List Text → Fragment → Result Fragment
checked [] f = ok f
checked (t ∷ ts) f = err (not_in_scope (t ∷ ts))

-- The body of `compile_sql`, given the conditions as rendered.
unfoldable pub assemble :
    Option Dialect → Bool → Text → Body → Specs → Result Rendered → Result Fragment
unfolding statement missing_tables checked
assemble dialect parameterize engine b conditions rendered =
    if empty b.base_table
    then err missing_base_table
    else rendered >>= λ w.
        checked (missing_tables b conditions) (statement dialect parameterize engine b w)

-- The engine that a subquery is compiled for.
abbrev pub engine_of : Option Dialect → Text
engine_of none = codes "mysql"
engine_of (some d) = d.engine_name

unfoldable mutual
  unfolding render_fields add_fragment assemble get_dialect

  pub compile_sql : (Engine → Bool) → Bool → Text → Plan → Result Fragment
  compile_sql installed parameterize engine (plan b conditions) =
      assemble (get_dialect installed engine) parameterize engine b conditions
        (render_conditions installed parameterize (get_dialect installed engine) conditions)

  pub render_conditions : (Engine → Bool) → Bool → Option Dialect → Specs → Result Rendered
  render_conditions installed parameterize dialect nil = ok (record { fragments = []; values = [] })
  render_conditions installed parameterize dialect (cons s rest) =
      render_spec installed parameterize dialect s >>= λ f.
      render_conditions installed parameterize dialect rest >>= λ r. ok (add_fragment f r)

  pub render_spec : (Engine → Bool) → Bool → Option Dialect → Spec → Result (Option Fragment)
  render_spec installed parameterize dialect (spec f sub) =
      render_fields dialect parameterize f (compile_subquery installed parameterize dialect sub)

  pub compile_subquery : (Engine → Bool) → Bool → Option Dialect → Subquery → Result Fragment
  compile_subquery installed parameterize dialect no_plan = err invalid_condition
  compile_subquery installed parameterize dialect (subplan p) =
      compile_sql installed parameterize (engine_of dialect) p
