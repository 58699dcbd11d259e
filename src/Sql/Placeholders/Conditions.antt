-- ===== src/Sql/Placeholders/Conditions.antt =====
-- One entry of `where`, rendered with placeholders.
use dbbuddy.Base.{
  refl, Bool, true, false, not, Option, none, some, [], ◌∷◌, ◌||◌, if◌then◌else◌, arith, Text,
  codes, occurrences, same, member, empty, upper, strip, Bool-cases, inl, inr,
}
use dbbuddy.Sql.Dialect.{Dialect}
use dbbuddy.Sql.Value.{null, str, other, Operand, one, many, unordered}
use dbbuddy.Sql.Operators.{Result, ok, err, Fragment, comparisons, ◌>>=◌, get_operator}
use dbbuddy.Sql.Plan.{Fields}
use dbbuddy.Sql.Conditions.{
  Predicate, compare, compare_columns, exists, quantified, quote_fields, coerce_null, condition_of,
  from_spec, build_predicate, render_predicate, render_quantified, quantified_fragment,
  render_maybe, render_fields, or_else,
}
use dbbuddy.Sql.Placeholders.Clean.{
  IsClean, percents-append, percents-upper, percents-strip, QuotesClean, percents-ref,
  percents-quote_ref,
}
use dbbuddy.Sql.Placeholders.Operands.{IsBalanced, AllOk, get_operator-IsClean, operator-IsBalanced}

abbrev pub MaybeClean : Option Text → Type 0
MaybeClean none = Unit
MaybeClean (some t) = IsClean t

-- No name, operator or keyword of the entry holds a percent sign; its values may.
pub record FieldsAreClean (f : Fields) : Type 0 where
  pub table : IsClean f.table
  pub column : IsClean f.column
  pub operator : MaybeClean f.operator
  pub column_ref : MaybeClean f.column_ref
  pub quantifier : IsClean f.quantifier
  pub comparator : MaybeClean f.comparator

abbrev PredicateIsClean : Option Predicate → Type 0
PredicateIsClean none = Unit
PredicateIsClean (some (compare column operator v)) = IsClean column × IsClean operator
PredicateIsClean (some (compare_columns column operator r)) =
    IsClean column × IsClean operator × IsClean r
PredicateIsClean (some (exists negated)) = Unit
PredicateIsClean (some (quantified column comparator quantifier)) =
    IsClean column × IsClean comparator × IsClean quantifier

or_else-IsClean : (o : Option Text) (t : Text) → MaybeClean o → IsClean t → IsClean (or_else o t)
or_else-IsClean none t h k = k
or_else-IsClean (some u) t h k = h

coerce_null-IsClean : (op : Text) (v : Operand) → IsClean op → IsClean (coerce_null op v)
unfolding coerce_null occurrences
coerce_null-IsClean op (one null) h = ground arith
coerce_null-IsClean op (one (str s)) h = h
coerce_null-IsClean op (one (other s)) h = h
coerce_null-IsClean op (many s vs) h = h
coerce_null-IsClean op (unordered s vs) h = h

equality-IsClean : IsClean (codes "=")
unfolding occurrences
equality-IsClean = refl

empty-IsClean : IsClean []
unfolding occurrences
empty-IsClean = refl

condition_of-IsClean :
    (f : Fields) (r : Option Text)
    → FieldsAreClean f
    → MaybeClean r
    → PredicateIsClean (some (condition_of f r))
unfolding condition_of
condition_of-IsClean f none h k =
    (h.column, coerce_null-IsClean _ _ (or_else-IsClean f.operator _ h.operator equality-IsClean))
condition_of-IsClean f (some r) h k =
    (h.column, or_else-IsClean f.operator _ h.operator equality-IsClean, k)

from_spec-IsClean : (f : Fields) → FieldsAreClean f → PredicateIsClean (from_spec f)
unfolding from_spec
from_spec-IsClean f h = elim (Bool-cases (empty f.column)) [
  | inl e ↦ rw e tt
  | inr e ↦ rw e (condition_of-IsClean f f.column_ref h h.column_ref)
]

quantified-IsClean :
    (f : Fields)
    → FieldsAreClean f
    → PredicateIsClean (
        some (
          quantified f.column (or_else f.comparator (or_else f.operator (codes "="))) f.quantifier))
quantified-IsClean f h = (
  h.column,
  or_else-IsClean f.comparator _ h.comparator
      (or_else-IsClean f.operator _ h.operator equality-IsClean),
  h.quantifier,
)

build_predicate-IsClean : (f : Fields) → FieldsAreClean f → PredicateIsClean (build_predicate f)
unfolding build_predicate
build_predicate-IsClean f h =
    let op = strip (upper (or_else f.operator [])) in
    elim (Bool-cases (same op (codes "EXISTS"))) [
      | inl e ↦ rw e tt
      | inr e ↦ rw e (elim (Bool-cases (same op (codes "NOT EXISTS"))) [
        | inl e ↦ rw e tt
        | inr e ↦ rw e (elim (Bool-cases (not (empty f.quantifier))) [
          | inl e ↦ rw e (quantified-IsClean f h)
          | inr e ↦ rw e (from_spec-IsClean f h)
        ])
      ])
    ]

quote_fields-AreClean :
    (d : Option Dialect) (f : Fields)
    → QuotesClean d
    → FieldsAreClean f
    → FieldsAreClean (quote_fields d f)
unfolding quote_fields occurrences
quote_fields-AreClean d f q h = record {
  table = ground (arith, h.table);
  column = ground (arith, h.column, h.table, percents-ref d f.table f.column q);
  operator = h.operator;
  column_ref = go f.column_ref h.column_ref;
  quantifier = h.quantifier;
  comparator = h.comparator;
}
  where
    go :
        (r : Option Text)
        → MaybeClean r
        → MaybeClean (elim r [
          | none ↦ none
          | some r ↦ some (if empty r then r else dbbuddy.Sql.Identifiers.quote_ref d r)
        ])
    go none k = tt
    go (some r) k = ground (arith, percents-quote_ref d r q)

abbrev pub OptionBalanced : Option Fragment → Type 0
OptionBalanced none = Unit
OptionBalanced (some f) = IsBalanced f

quantified_fragment-IsBalanced :
    (column comparator quantifier : Text) (sub : Fragment)
    → IsClean column
    → IsClean comparator
    → IsClean quantifier
    → IsBalanced sub
    → IsBalanced (quantified_fragment column comparator quantifier sub)
unfolding quantified_fragment occurrences
quantified_fragment-IsBalanced column comparator quantifier sub h k l m =
    omega (arith, percents-append)

render_quantified-IsBalanced :
    (column comparator quantifier : Text) (sub : Result Fragment)
    → IsClean column
    → IsClean comparator
    → IsClean quantifier
    → AllOk IsBalanced sub
    → AllOk IsBalanced (render_quantified column comparator quantifier sub)
unfolding render_quantified
render_quantified-IsBalanced column comparator quantifier (err e) h k l m =
    elim (Bool-cases (
      empty column
      || not (member comparator comparisons)
      || not (member quantifier (codes "ANY" ∷ codes "ALL" ∷ [])))) [
        | inl e ↦ rw e tt
        | inr e ↦ rw e tt
      ]
render_quantified-IsBalanced column comparator quantifier (ok f) h k l m =
    elim (Bool-cases (
      empty column
      || not (member comparator comparisons)
      || not (member quantifier (codes "ANY" ∷ codes "ALL" ∷ [])))) [
        | inl e ↦ rw e tt
        | inr e ↦ rw e (quantified_fragment-IsBalanced column comparator quantifier f h k l m)
      ]

exists-IsBalanced :
    (negated : Bool) (d : Option Dialect) (sub : Result Fragment)
    → AllOk IsBalanced sub
    → AllOk IsBalanced (render_predicate d true (exists negated) sub)
unfolding render_predicate occurrences
exists-IsBalanced negated d (err e) h = tt
exists-IsBalanced true d (ok f) h = omega (arith, percents-append)
exists-IsBalanced false d (ok f) h = omega (arith, percents-append)

predicate-IsBalanced :
    (d : Option Dialect) (p : Predicate) (sub : Result Fragment)
    → PredicateIsClean (some p)
    → AllOk IsBalanced sub
    → AllOk IsBalanced (render_predicate d true p sub)
unfolding render_predicate occurrences
predicate-IsBalanced d (compare column operator v) sub h k =
    operator-IsBalanced d (get_operator operator) column v (get_operator-IsClean operator h.1) h.0
predicate-IsBalanced d (compare_columns column operator r) sub h k = omega (arith, percents-append)
predicate-IsBalanced d (exists negated) sub h k = exists-IsBalanced negated d sub k
predicate-IsBalanced d (quantified column comparator quantifier) sub h k =
    render_quantified-IsBalanced column (strip comparator) (strip (upper quantifier)) sub h.0
      (omega (arith, percents-strip comparator, h.1))
      (omega (arith, percents-strip (upper quantifier), percents-upper quantifier, h.2)) k

some-OptionBalanced :
    (r : Result Fragment) → AllOk IsBalanced r → AllOk OptionBalanced (r >>= λ f. ok (some f))
some-OptionBalanced (ok f) h = h
some-OptionBalanced (err e) h = tt

maybe-IsBalanced :
    (d : Option Dialect) (p : Option Predicate) (sub : Result Fragment)
    → PredicateIsClean p
    → AllOk IsBalanced sub
    → AllOk OptionBalanced (render_maybe d true p sub)
unfolding render_maybe
maybe-IsBalanced d none sub h k = tt
maybe-IsBalanced d (some p) sub h k = some-OptionBalanced _ (predicate-IsBalanced d p sub h k)

pub fields-IsBalanced :
    (d : Option Dialect) (f : Fields) (sub : Result Fragment)
    → QuotesClean d
    → FieldsAreClean f
    → AllOk IsBalanced sub
    → AllOk OptionBalanced (render_fields d true f sub)
unfolding render_fields
fields-IsBalanced d f sub q h k =
    maybe-IsBalanced d (build_predicate (quote_fields d f)) sub
      (build_predicate-IsClean (quote_fields d f) (quote_fields-AreClean d f q h)) k
