-- ===== src/Sql/Examples.antt =====
-- Plans compiled, and the theorems about the compiler at concrete plans.
use dbbuddy.Base.{
  ℕ, ◌++◌, ◌≡◌, length, lower, strip, arith, occurrences, refl, Bool, true, none, some, [], ◌∷◌,
  Text, codes,
}
use dbbuddy.Sql.Dialect.{Engine, mysql, sqlserver, dialect_of, quote_identifier, normalize}
use dbbuddy.Sql.Value.{render_literal, str, Operand, one}
use dbbuddy.Sql.Operators.{ok, Fragment}
use dbbuddy.Sql.Plan.{
  graph_join, Body, by_item, rows, Fields, Plan, plan, Specs, nil, cons, spec, no_plan,
}
use dbbuddy.Sql.Clauses.{
  is_sqlserver, order_items, top_clause, having_clause, limit_rows, select_clause, join_parts,
  group_parts, order_clause, limit_clause,
}
use dbbuddy.Sql.Compiler.{compile_sql, Rendered}
use dbbuddy.Sql.Placeholders.Clean.{percents}
use dbbuddy.Sql.Placeholders.Statements.{BodyIsClean, SpecsAreClean, compile_sql-IsBalanced}
use dbbuddy.Sql.Masking.{mask_plan, compile_sql-mask}
use dbbuddy.Sql.Masking.Predicates.{sql_of}
use dbbuddy.Sql.Quoting.{read_token, read_literal, read-quote_identifier, read-render_literal}

abbrev installed : Engine → Bool
installed e = true

abbrev equals : Text → Operand → Fields
equals column v = record {
  table = [];
  column = column;
  operator = some (codes "=");
  value = some v;
  values = none;
  column_ref = none;
  quantifier = [];
  comparator = none;
}

-- Orders of one status with their customer, newest ten.
abbrev body : Body
body = record {
  select =
      record { table = codes "order"; column = codes "id"; alias = []; aggregation = [] }
      ∷ record {
        table = codes "customers";
        column = codes "name";
        alias = codes "customer";
        aggregation = [];
      }
      ∷ [];
  base_table = codes "order";
  joins = graph_join (codes "order") (codes "customers") (codes "customer_id") (codes "id") ∷ [];
  group_by = [];
  having = [];
  order_by = by_item (record {
    table = codes "order";
    column = codes "created";
    aggregation = none;
    direction = codes "desc";
  });
  aggregation = none;
  limit = rows 10;
}

abbrev paid : Text
paid = codes "it's paid"

abbrev orders : Text → Plan
orders status =
    plan body (cons (spec (equals (codes "order.status") (one (str status))) no_plan) nil)

compiled_for_mysql :
    compile_sql installed true (codes "mysql") (orders paid)
    ≡ ok (record {
      sql =
          codes
            "SELECT `order`.id, customers.name AS customer FROM `order` JOIN customers ON `order`.customer_id = customers.id WHERE `order`.`status` = %s ORDER BY `order`.created DESC LIMIT 10";
      params = one (str paid) ∷ [];
    })
unfolding compile_sql order_items top_clause having_clause limit_rows select_clause join_parts
    group_parts order_clause limit_clause
compiled_for_mysql = refl

abbrev statement_text : Fragment
statement_text = record {
  sql =
      codes
        "SELECT `order`.id, customers.name AS customer FROM `order` JOIN customers ON `order`.customer_id = customers.id WHERE `order`.`status` = %s ORDER BY `order`.created DESC LIMIT 10";
  params = one (str paid) ∷ [];
}

body-IsClean : BodyIsClean body
unfolding occurrences
body-IsClean = record {
  select = ((refl, refl, refl, refl), ((refl, refl, refl, refl), tt));
  base_table = refl;
  joins = ((refl, refl, refl, refl), tt);
  group_by = tt;
  having = tt;
  order_by = (refl, refl, tt);
  aggregation = tt;
}

conditions-AreClean :
    SpecsAreClean (cons (spec (equals (codes "order.status") (one (str paid))) no_plan) nil)
unfolding occurrences
conditions-AreClean = (
  (
    record {
      table = refl;
      column = refl;
      operator = refl;
      column_ref = tt;
      quantifier = refl;
      comparator = tt;
    },
    tt,
  ),
  tt,
)

compile_sql-IsBalanced_example : percents statement_text.sql ≡ length statement_text.params
compile_sql-IsBalanced_example =
    compile_sql-IsBalanced installed (codes "mysql") (orders paid) statement_text
      (body-IsClean, conditions-AreClean) compiled_for_mysql

compile_sql-mask_example :
    sql_of (compile_sql installed true (codes "mysql") (mask_plan (orders paid)))
    ≡ sql_of (compile_sql installed true (codes "mysql") (orders paid))
compile_sql-mask_example = compile_sql-mask installed (codes "mysql") (orders paid)

-- An identifier that tries to close its own quotes.
abbrev hostile : Text
hostile = codes "id` FROM users; --"

read-quote_identifier_example :
    read_token
      (dialect_of mysql).capabilities.identifier_quote_char
      (quote_identifier (dialect_of mysql) hostile ++ codes " = 1")
    ≡ some (hostile, codes " = 1")
read-quote_identifier_example =
    read-quote_identifier (dialect_of mysql) hostile (codes " = 1") (λ p. ground (arith, p))

-- What some servers read after a backslash.
abbrev unescape : ℕ → Text
unescape c = c ∷ []

-- A backslash at the end of the text takes the closing quote with it.
left_open : read_literal (some unescape) (render_literal (str (codes "a\\"))) ≡ none
unfolding read_literal render_literal
left_open = refl

read-render_literal_example :
    read_literal (some unescape) (render_literal (str paid) ++ codes " OR 1")
    ≡ some (paid, codes " OR 1")
read-render_literal_example =
    read-render_literal (some unescape) paid (codes " OR 1") (ground arith) (λ p. ground (arith, p))

abbrev conditions : Specs
conditions = cons (spec (equals (codes "order.status") (one (str paid))) no_plan) nil

abbrev rendered : Rendered
rendered = record {
  fragments = codes "\"order\".\"status\" = %s" ∷ [];
  values = one (str paid) ∷ [];
}

-- The registry takes the name for SQL Server, and the compiler writes a LIMIT.
full_name_limit :
    (normalize (codes "Microsoft SQL Server") ≡ some sqlserver)
    × (top_clause (codes "Microsoft SQL Server") 10 ≡ [])
    × (limit_clause (codes "Microsoft SQL Server") 10 ≡ codes "LIMIT 10")
unfolding normalize top_clause limit_clause is_sqlserver lower strip
full_name_limit = (refl, refl, refl)
