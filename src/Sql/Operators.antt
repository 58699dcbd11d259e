-- ===== src/Sql/Operators.antt =====
-- dbbuddy_core/sql/operators.py: the operators and the registry.
use dbbuddy.Base.{
  Bool, true, false, Option, none, some, List, [], ◌∷◌, ◌++◌, map, ◌||◌, ◌&&◌, if◌then◌else◌, Text,
  codes, same, member, upper, strip, join, any,
}
use dbbuddy.Sql.Dialect.{Dialect, render_ilike}
use dbbuddy.Sql.Value.{Value, null, Operand, one, many, unordered, render_literal, render_operand}

pub data Error : Type 0 where
  missing_base_table invalid_condition : Error
  not_in_scope : List Text → Error

pub data Result {ℓ} (A : Type ℓ) : Type ℓ where
  ok : A → Result A
  err : Error → Result A

infixl 5 ◌>>=◌
abbrev pub ◌>>=◌ {ℓ κ} : {A : Type ℓ} {B : Type κ} → Result A → (A → Result B) → Result B
ok a >>= f = f a
err e >>= f = err e

-- SQL text with the values to bind, in order.
pub record Fragment : Type 0 where
  pub sql : Text
  pub params : List Operand

-- The subclasses of `Operator`.
pub data Operator : Type 0 where
  binary : Text → Operator
  unary : Text → Operator
  range : Text → Operator
  set : Text → Bool → Operator
  ilike : Operator

abbrev pub placeholder : Text
placeholder = codes "%s"

abbrev pub plain : Text → Fragment
plain sql = record { sql = sql; params = [] }

-- A right-hand side: `%s` with the value bound, or the literal.
unfoldable pub right_side : Bool → Operand → Fragment
unfolding render_operand
right_side true v = record { sql = placeholder; params = v ∷ [] }
right_side false v = plain (render_operand v)

unfoldable pub render_binary : Text → Text → Operand → Bool → Fragment
unfolding right_side
render_binary sql column (one null) parameterize =
    plain (column ++ (codes " " ++ (sql ++ codes " NULL")))
render_binary sql column v parameterize =
    let rhs = right_side parameterize v in
    record rhs { sql = column ++ (codes " " ++ (sql ++ (codes " " ++ rhs.sql))) }

unfoldable pub range_pair : Text → Text → List Value → Bool → Result Fragment
unfolding render_literal
range_pair sql column (low ∷ high ∷ []) true = ok (record {
  sql = column ++ (codes " " ++ (sql ++ codes " %s AND %s"));
  params = one low ∷ one high ∷ [];
})
range_pair sql column (low ∷ high ∷ []) false = ok (
    plain (
      column
      ++ (codes " "
          ++ (sql
              ++ (codes " " ++ (render_literal low ++ (codes " AND " ++ render_literal high)))))))
range_pair sql column _ parameterize = err invalid_condition

unfoldable pub render_range : Text → Text → Operand → Bool → Result Fragment
unfolding range_pair
render_range sql column (many shown vs) parameterize = range_pair sql column vs parameterize
render_range sql column _ parameterize = err invalid_condition

abbrev pub is_null : Value → Bool
is_null null = true
is_null _ = false

abbrev pub values_of : Operand → List Value
values_of (one v) = v ∷ []
values_of (many shown vs) = vs
values_of (unordered shown vs) = vs

-- `render` of a set operator on the values, which are not empty.
unfoldable pub render_members : Text → Bool → Text → List Value → Bool → Result Fragment
unfolding render_literal join
render_members sql negated column vs parameterize =
    if negated && any is_null vs
    then err invalid_condition
    else ok (
        if parameterize
        then record {
          sql =
              column
              ++ (codes " "
                  ++ (sql
                      ++ (codes " ("
                          ++ (join (codes ", ") (map (λ v. placeholder) vs) ++ codes ")"))));
          params = map one vs;
        }
        else plain (
            column
            ++ (codes " "
                ++ (sql
                    ++ (codes " (" ++ (join (codes ", ") (map render_literal vs) ++ codes ")"))))))

unfoldable pub render_set : Text → Bool → Text → List Value → Bool → Result Fragment
unfolding render_members
render_set sql negated column [] parameterize =
    ok (plain (if negated then codes "1=1" else codes "1=0"))
render_set sql negated column (v ∷ vs) parameterize =
    render_members sql negated column (v ∷ vs) parameterize

unfoldable pub ilike_side : Operand → Bool → Fragment
unfolding right_side
ilike_side (one null) parameterize = plain (codes "NULL")
ilike_side v parameterize = right_side parameterize v

unfoldable pub render_ilike_operator : Option Dialect → Text → Operand → Bool → Fragment
unfolding ilike_side render_ilike
render_ilike_operator dialect column v parameterize =
    let rhs = ilike_side v parameterize in
    record rhs {
      sql = elim dialect [
        | some d ↦ render_ilike d column rhs.sql
        | none ↦ codes "LOWER(" ++ (column ++ (codes ") LIKE LOWER(" ++ (rhs.sql ++ codes ")")))
      ];
    }

-- `Operator.render`, by the subclass.
unfoldable pub render_operator : Option Dialect → Operator → Text → Operand → Bool → Result Fragment
unfolding render_binary render_range render_set render_ilike_operator
render_operator dialect (binary sql) column v parameterize =
    ok (render_binary sql column v parameterize)
render_operator dialect (unary sql) column v parameterize =
    ok (plain (column ++ (codes " " ++ sql)))
render_operator dialect (range sql) column v parameterize = render_range sql column v parameterize
render_operator dialect (set sql negated) column v parameterize =
    render_set sql negated column (values_of v) parameterize
render_operator dialect ilike column v parameterize =
    ok (render_ilike_operator dialect column v parameterize)

abbrev pub comparisons : List Text
comparisons =
    codes "=" ∷ codes "!=" ∷ codes "<>" ∷ codes "<" ∷ codes ">" ∷ codes "<=" ∷ codes ">=" ∷ []

-- The registry, and the pass-through of an unknown token.
unfoldable pub get_operator : Text → Operator
unfolding upper strip member
get_operator token =
    let name = strip (upper token) in
    if member name comparisons || same name (codes "LIKE")
    then binary name
    else if same name (codes "ILIKE")
    then ilike
    else if same name (codes "IS NULL") || same name (codes "IS NOT NULL")
    then unary name
    else if same name (codes "BETWEEN")
    then range name
    else if same name (codes "IN")
    then set name false
    else if same name (codes "NOT IN")
    then set name true
    else binary token
