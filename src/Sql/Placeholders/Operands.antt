-- ===== src/Sql/Placeholders/Operands.antt =====
-- Conditions rendered with placeholders: as many percent signs as values to bind.
use dbbuddy.Base.{
  ◌+◌, ◌≡◌, refl, Bool, true, false, Option, none, some, List, [], ◌∷◌, map, ◌&&◌, arith, Text,
  codes, occurrences, upper, length, length-map, Bool-cases, inl, inr, join, join_rest, any,
}
use dbbuddy.Sql.Dialect.{Dialect, render_ilike}
use dbbuddy.Sql.Value.{Value, null, str, other, Operand, one, many, unordered}
use dbbuddy.Sql.Operators.{
  Result, ok, err, Fragment, placeholder, Operator, binary, unary, range, set, ilike, render_binary,
  render_range, is_null, values_of, render_members, render_set, ilike_side, render_ilike_operator,
  render_operator, get_operator,
}
use dbbuddy.Sql.Placeholders.Clean.{
  percents, IsClean, percents-append, percents-upper, percents-strip,
}

-- One percent sign, that of `%s`, for each value to bind.
abbrev pub IsBalanced : Fragment → Type 0
IsBalanced f = percents f.sql ≡ length f.params

abbrev pub AllOk {ℓ κ} : {A : Type ℓ} → (A → Type κ) → Result A → Type κ
AllOk P (ok a) = P a
AllOk P (err e) = Unit

abbrev OperatorIsClean : Operator → Type 0
OperatorIsClean (binary sql) = IsClean sql
OperatorIsClean (unary sql) = IsClean sql
OperatorIsClean (range sql) = IsClean sql
OperatorIsClean (set sql negated) = IsClean sql
OperatorIsClean ilike = Unit

pub get_operator-IsClean : (token : Text) → IsClean token → OperatorIsClean (get_operator token)
unfolding get_operator
get_operator-IsClean token h = ground (arith, percents-strip (upper token), percents-upper token)

-- A text between others.
ruleset sums = (arith, percents-append)

binary-IsBalanced :
    (sql column : Text) (v : Operand)
    → IsClean sql
    → IsClean column
    → IsBalanced (render_binary sql column v true)
unfolding render_binary occurrences
binary-IsBalanced sql column (one null) h k = omega sums
binary-IsBalanced sql column (one (str s)) h k = omega sums
binary-IsBalanced sql column (one (other s)) h k = omega sums
binary-IsBalanced sql column (many s vs) h k = omega sums
binary-IsBalanced sql column (unordered s vs) h k = omega sums

range-IsBalanced :
    (sql column : Text) (v : Operand)
    → IsClean sql
    → IsClean column
    → AllOk IsBalanced (render_range sql column v true)
unfolding render_range occurrences
range-IsBalanced sql column (one v) h k = tt
range-IsBalanced sql column (many s []) h k = tt
range-IsBalanced sql column (many s (a ∷ [])) h k = tt
range-IsBalanced sql column (many s (a ∷ b ∷ [])) h k = omega sums
range-IsBalanced sql column (many s (a ∷ b ∷ c ∷ vs)) h k = tt
range-IsBalanced sql column (unordered s vs) h k = tt

join_rest-placeholders :
    (vs : List Value) → percents (join_rest (codes ", ") (map (λ v. placeholder) vs)) ≡ length vs
unfolding join_rest occurrences
join_rest-placeholders [] = refl
join_rest-placeholders (v ∷ vs) = omega (arith, join_rest-placeholders vs)

join-placeholders :
    (vs : List Value) → percents (join (codes ", ") (map (λ v. placeholder) vs)) ≡ length vs
unfolding join occurrences
join-placeholders [] = refl
join-placeholders (v ∷ vs) = omega (arith, join_rest-placeholders vs)

members-IsBalanced :
    (sql : Text) (negated : Bool) (column : Text) (vs : List Value)
    → IsClean sql
    → IsClean column
    → AllOk IsBalanced (render_members sql negated column vs true)
unfolding render_members occurrences
members-IsBalanced sql negated column vs h k = elim (Bool-cases (negated && any is_null vs)) [
  | inl e ↦ rw e tt
  | inr e ↦ rw e (omega (sums, join-placeholders vs, length-map one vs))
]

set-IsBalanced :
    (sql : Text) (negated : Bool) (column : Text) (vs : List Value)
    → IsClean sql
    → IsClean column
    → AllOk IsBalanced (render_set sql negated column vs true)
unfolding render_set occurrences
set-IsBalanced sql true column [] h k = refl
set-IsBalanced sql false column [] h k = refl
set-IsBalanced sql negated column (v ∷ vs) h k = members-IsBalanced sql negated column (v ∷ vs) h k

side-IsBalanced : (v : Operand) → IsBalanced (ilike_side v true)
unfolding ilike_side occurrences
side-IsBalanced (one null) = refl
side-IsBalanced (one (str s)) = refl
side-IsBalanced (one (other s)) = refl
side-IsBalanced (many s vs) = refl
side-IsBalanced (unordered s vs) = refl

percents-render_ilike :
    (d : Dialect) (column rhs : Text)
    → percents (render_ilike d column rhs) ≡ percents column + percents rhs
unfolding render_ilike occurrences
percents-render_ilike d column rhs = elim (Bool-cases d.capabilities.supports_ilike) [
  | inl e ↦ rw e (omega sums)
  | inr e ↦ rw e (omega sums)
]

ilike-IsBalanced :
    (d : Option Dialect) (column : Text) (v : Operand)
    → IsClean column
    → IsBalanced (render_ilike_operator d column v true)
unfolding render_ilike_operator occurrences
ilike-IsBalanced none column v k = omega (sums, side-IsBalanced v)
ilike-IsBalanced (some d) column v k =
    omega (arith, percents-render_ilike d column (ilike_side v true).sql, side-IsBalanced v)

pub operator-IsBalanced :
    (d : Option Dialect) (op : Operator) (column : Text) (v : Operand)
    → OperatorIsClean op
    → IsClean column
    → AllOk IsBalanced (render_operator d op column v true)
unfolding render_operator occurrences
operator-IsBalanced d (binary sql) column v h k = binary-IsBalanced sql column v h k
operator-IsBalanced d (unary sql) column v h k = omega sums
operator-IsBalanced d (range sql) column v h k = range-IsBalanced sql column v h k
operator-IsBalanced d (set sql negated) column v h k =
    set-IsBalanced sql negated column (values_of v) h k
operator-IsBalanced d ilike column v h k = ilike-IsBalanced d column v k
