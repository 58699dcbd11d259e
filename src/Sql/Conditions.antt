-- ===== src/Sql/Conditions.antt =====
-- dbbuddy_core/sql/conditions.py and predicates.py: from an entry of `where` to its fragment.
use dbbuddy.Base.{
  Bool, true, false, not, Option, none, some, [], ◌∷◌, ◌++◌, ◌||◌, if◌then◌else◌, Text, codes, same,
  empty, upper, strip, member,
}
use dbbuddy.Sql.Dialect.{Dialect}
use dbbuddy.Sql.Value.{null, str, Operand, one}
use dbbuddy.Sql.Operators.{
  Result, ok, err, invalid_condition, ◌>>=◌, Fragment, plain, comparisons, render_operator,
  get_operator,
}
use dbbuddy.Sql.Plan.{Fields}
use dbbuddy.Sql.Identifiers.{ref, quote_ref}

-- The subclasses of `Predicate`, apart from their subquery.
pub data Predicate : Type 0 where
  compare : (column operator : Text) → Operand → Predicate
  compare_columns : (column operator column_ref : Text) → Predicate
  exists : Bool → Predicate
  quantified : (column comparator quantifier : Text) → Predicate

abbrev pub or_else {ℓ} : {A : Type ℓ} → Option A → A → A
or_else none d = d
or_else (some a) d = a

-- One step of `_quote_condition_columns`.
unfoldable pub quote_fields : Option Dialect → Fields → Fields
unfolding ref quote_ref
quote_fields dialect f = record f {
  column = if empty f.column then f.column else ref dialect f.table f.column;
  table = if empty f.column then f.table else [];
  column_ref = elim f.column_ref [
    | none ↦ none
    | some r ↦ some (if empty r then r else quote_ref dialect r)
  ];
}

-- A `None` value turns an equality into a null test.
unfoldable pub coerce_null : Text → Operand → Text
unfolding same
coerce_null operator (one null) =
    if same operator (codes "=")
    then codes "IS NULL"
    else if same operator (codes "!=") || same operator (codes "<>")
    then codes "IS NOT NULL"
    else operator
coerce_null operator _ = operator

unfoldable pub operand_of : Fields → Operand
operand_of f = or_else f.value (or_else f.values (one (str [])))

unfoldable pub condition_of : Fields → Option Text → Predicate
unfolding coerce_null operand_of
condition_of f (some r) = compare_columns f.column (or_else f.operator (codes "=")) r
condition_of f none =
    compare f.column (coerce_null (or_else f.operator (codes "=")) (operand_of f)) (operand_of f)

-- `Condition.from_spec`.
unfoldable pub from_spec : Fields → Option Predicate
unfolding condition_of
from_spec f = if empty f.column then none else some (condition_of f f.column_ref)

unfoldable pub build_predicate : Fields → Option Predicate
unfolding from_spec same upper strip
build_predicate f =
    let op = strip (upper (or_else f.operator [])) in
    if same op (codes "EXISTS")
    then some (exists false)
    else if same op (codes "NOT EXISTS")
    then some (exists true)
    else if not (empty f.quantifier)
    then some
        (quantified f.column (or_else f.comparator (or_else f.operator (codes "="))) f.quantifier)
    else from_spec f

abbrev pub exists_keyword : Bool → Text
exists_keyword true = codes "NOT EXISTS"
exists_keyword false = codes "EXISTS"

unfoldable pub quantified_fragment : Text → Text → Text → Fragment → Fragment
quantified_fragment column comparator quantifier sub = record sub {
  sql =
      column
      ++ (codes " "
          ++ (comparator ++ (codes " " ++ (quantifier ++ (codes " (" ++ (sub.sql ++ codes ")"))))));
}

unfoldable pub render_quantified : Text → Text → Text → Result Fragment → Result Fragment
unfolding quantified_fragment member
render_quantified column comparator quantifier subquery =
    if empty column
      || not (member comparator comparisons)
      || not (member quantifier (codes "ANY" ∷ codes "ALL" ∷ []))
    then err invalid_condition
    else subquery >>= λ sub. ok (quantified_fragment column comparator quantifier sub)

-- `Predicate.render`; the subquery is compiled beforehand.
unfoldable pub render_predicate :
    Option Dialect → Bool → Predicate → Result Fragment → Result Fragment
unfolding get_operator render_operator render_quantified upper strip
render_predicate dialect parameterize (compare column operator value) subquery =
    render_operator dialect (get_operator operator) column value parameterize
render_predicate dialect parameterize (compare_columns column operator column_ref) subquery =
    ok (plain (column ++ (codes " " ++ (operator ++ (codes " " ++ column_ref)))))
render_predicate dialect parameterize (exists negated) subquery = subquery >>= λ sub.
    ok (record sub { sql = exists_keyword negated ++ (codes " (" ++ (sub.sql ++ codes ")")) })
render_predicate dialect parameterize (quantified column comparator quantifier) subquery =
    render_quantified column (strip comparator) (strip (upper quantifier)) subquery

unfoldable pub render_maybe :
    Option Dialect → Bool → Option Predicate → Result Fragment → Result (Option Fragment)
unfolding render_predicate
render_maybe dialect parameterize none subquery = ok none
render_maybe dialect parameterize (some p) subquery =
    render_predicate dialect parameterize p subquery >>= λ r. ok (some r)

-- What `render_conditions` makes of one entry: `none` where it skips it.
unfoldable pub render_fields :
    Option Dialect → Bool → Fields → Result Fragment → Result (Option Fragment)
unfolding quote_fields build_predicate render_maybe
render_fields dialect parameterize f subquery =
    render_maybe dialect parameterize (build_predicate (quote_fields dialect f)) subquery
