-- ===== src/Sql/Masking/Predicates.antt =====
-- Masked values in one condition.
use dbbuddy.Base.{
  ◌≡◌, refl, sym, ap, ◌∙◌, Bool, true, false, not, Option, none, some, List, [], ◌∷◌, ◌++◌, arith,
  Text, codes, empty, Bool-cases, inl, inr, map, any, ◌&&◌, same, upper, strip,
}
use dbbuddy.Sql.Dialect.{Dialect}
use dbbuddy.Sql.Value.{Value, null, str, other, Operand, one, many, unordered}
use dbbuddy.Sql.Operators.{
  Result, ok, err, Fragment, placeholder, Operator, binary, unary, range, set, ilike, render_binary,
  render_range, is_null, values_of, render_members, render_set, ilike_side, render_ilike_operator,
  render_operator, get_operator, ◌>>=◌,
}
use dbbuddy.Sql.Plan.{Fields}
use dbbuddy.Sql.Clauses.{is_none}
use dbbuddy.Sql.Conditions.{
  Predicate, compare, compare_columns, exists, quantified, quote_fields, coerce_null, condition_of,
  from_spec, build_predicate, render_predicate, render_quantified, quantified_fragment,
  render_maybe, render_fields, or_else, operand_of, exists_keyword,
}

unfoldable pub mask_value : Value → Value
mask_value null = null
mask_value (str s) = str []
mask_value (other s) = str []

unfoldable pub mask_operand : Operand → Operand
unfolding mask_value
mask_operand (one v) = one (mask_value v)
mask_operand (many shown vs) = many [] (map mask_value vs)
mask_operand (unordered shown vs) = unordered [] (map mask_value vs)

abbrev mask_option : Option Operand → Option Operand
mask_option none = none
mask_option (some v) = some (mask_operand v)

unfoldable pub mask_fields : Fields → Fields
unfolding mask_operand
mask_fields f = record f { value = mask_option f.value; values = mask_option f.values }

-- The text of a result, or its error.
abbrev pub sql_of : Result Fragment → Result Text
sql_of (ok f) = ok f.sql
sql_of (err e) = err e

abbrev pub maybe_sql : Result (Option Fragment) → Result (Option Text)
maybe_sql (ok none) = ok none
maybe_sql (ok (some f)) = ok (some f.sql)
maybe_sql (err e) = err e

pub is_none-mask : (v : Operand) → is_none (mask_operand v) ≡ is_none v
unfolding mask_operand mask_value
is_none-mask (one null) = refl
is_none-mask (one (str s)) = refl
is_none-mask (one (other s)) = refl
is_none-mask (many s vs) = refl
is_none-mask (unordered s vs) = refl

any_null-mask : (vs : List Value) → any is_null (map mask_value vs) ≡ any is_null vs
unfolding mask_value
any_null-mask [] = refl
any_null-mask (null ∷ vs) = refl
any_null-mask (str s ∷ vs) = any_null-mask vs
any_null-mask (other s ∷ vs) = any_null-mask vs

placeholders-mask :
    (vs : List Value) → map (λ v. placeholder) (map mask_value vs) ≡ map (λ v. placeholder) vs
placeholders-mask [] = refl
placeholders-mask (v ∷ vs) = ap (◌∷◌ placeholder) (placeholders-mask vs)

values_of-mask : (v : Operand) → values_of (mask_operand v) ≡ map mask_value (values_of v)
unfolding mask_operand
values_of-mask (one v) = refl
values_of-mask (many s vs) = refl
values_of-mask (unordered s vs) = refl

binary-mask :
    (sql column : Text) (v : Operand)
    → (render_binary sql column (mask_operand v) true).sql ≡ (render_binary sql column v true).sql
unfolding render_binary mask_operand mask_value
binary-mask sql column (one null) = refl
binary-mask sql column (one (str s)) = refl
binary-mask sql column (one (other s)) = refl
binary-mask sql column (many s vs) = refl
binary-mask sql column (unordered s vs) = refl

range-mask :
    (sql column : Text) (v : Operand)
    → sql_of (render_range sql column (mask_operand v) true)
      ≡ sql_of (render_range sql column v true)
unfolding render_range mask_operand
range-mask sql column (one v) = refl
range-mask sql column (many s []) = refl
range-mask sql column (many s (a ∷ [])) = refl
range-mask sql column (many s (a ∷ b ∷ [])) = refl
range-mask sql column (many s (a ∷ b ∷ c ∷ vs)) = refl
range-mask sql column (unordered s vs) = refl

members-mask :
    (sql : Text) (negated : Bool) (column : Text) (vs : List Value)
    → sql_of (render_members sql negated column (map mask_value vs) true)
      ≡ sql_of (render_members sql negated column vs true)
unfolding render_members
members-mask sql negated column vs =
    rw (any_null-mask vs, placeholders-mask vs)
      (elim (Bool-cases (negated && any is_null vs)) [ inl e ↦ rw e refl | inr e ↦ rw e refl ])

set-mask :
    (sql : Text) (negated : Bool) (column : Text) (vs : List Value)
    → sql_of (render_set sql negated column (map mask_value vs) true)
      ≡ sql_of (render_set sql negated column vs true)
unfolding render_set
set-mask sql negated column [] = refl
set-mask sql negated column (v ∷ vs) = members-mask sql negated column (v ∷ vs)

side-mask : (v : Operand) → (ilike_side (mask_operand v) true).sql ≡ (ilike_side v true).sql
unfolding ilike_side mask_operand mask_value
side-mask (one null) = refl
side-mask (one (str s)) = refl
side-mask (one (other s)) = refl
side-mask (many s vs) = refl
side-mask (unordered s vs) = refl

operator-mask :
    (d : Option Dialect) (op : Operator) (column : Text) (v : Operand)
    → sql_of (render_operator d op column (mask_operand v) true)
      ≡ sql_of (render_operator d op column v true)
unfolding render_operator render_ilike_operator
operator-mask d (binary sql) column v = ap ok (binary-mask sql column v)
operator-mask d (unary sql) column v = refl
operator-mask d (range sql) column v = range-mask sql column v
operator-mask d (set sql negated) column v =
    rw values_of-mask (set-mask sql negated column (values_of v))
operator-mask none ilike column v = rw side-mask refl
operator-mask (some d) ilike column v = rw side-mask refl

abbrev mask_predicate : Predicate → Predicate
mask_predicate (compare column operator v) = compare column operator (mask_operand v)
mask_predicate (compare_columns column operator r) = compare_columns column operator r
mask_predicate (exists negated) = exists negated
mask_predicate (quantified column comparator quantifier) = quantified column comparator quantifier

coerce_null-mask : (op : Text) (v : Operand) → coerce_null op (mask_operand v) ≡ coerce_null op v
unfolding coerce_null mask_operand mask_value
coerce_null-mask op (one null) = refl
coerce_null-mask op (one (str s)) = refl
coerce_null-mask op (one (other s)) = refl
coerce_null-mask op (many s vs) = refl
coerce_null-mask op (unordered s vs) = refl

or_else-mask :
    (v w : Option Operand)
    → or_else (mask_option v) (or_else (mask_option w) (one (str [])))
      ≡ mask_operand (or_else v (or_else w (one (str []))))
unfolding mask_operand mask_value
or_else-mask none none = refl
or_else-mask none (some w) = refl
or_else-mask (some v) w = refl

operand_of-mask : (f : Fields) → operand_of (mask_fields f) ≡ mask_operand (operand_of f)
unfolding operand_of mask_fields
operand_of-mask f = or_else-mask f.value f.values

condition_of-mask :
    (f : Fields) (r : Option Text)
    → condition_of (mask_fields f) r ≡ mask_predicate (condition_of f r)
unfolding condition_of
condition_of-mask f none = rw (operand_of-mask f, coerce_null-mask) (unfold mask_fields in refl)
condition_of-mask f (some r) = unfold mask_fields in refl

abbrev mask_maybe : Option Predicate → Option Predicate
mask_maybe none = none
mask_maybe (some p) = some (mask_predicate p)

from_spec-mask : (f : Fields) → from_spec (mask_fields f) ≡ mask_maybe (from_spec f)
unfolding from_spec
from_spec-mask f = elim (Bool-cases (empty f.column)) [
  | inl e ↦ unfold mask_fields in rw e refl
  | inr e ↦ unfold mask_fields in rw e (ap some (condition_of-mask f f.column_ref))
]

build_predicate-mask :
    (f : Fields) → build_predicate (mask_fields f) ≡ mask_maybe (build_predicate f)
unfolding build_predicate
build_predicate-mask f =
    let op = strip (upper (or_else f.operator [])) in
    elim (Bool-cases (same op (codes "EXISTS"))) [
      | inl e ↦ unfold mask_fields in rw e refl
      | inr e ↦ elim (Bool-cases (same op (codes "NOT EXISTS"))) [
        | inl x ↦ unfold mask_fields in rw (e, x) refl
        | inr x ↦ elim (Bool-cases (not (empty f.quantifier))) [
          | inl y ↦ unfold mask_fields in rw (e, x, y) refl
          | inr y ↦ unfold mask_fields in rw (e, x, y) (from_spec-mask f)
        ]
      ]
    ]

quote_fields-mask :
    (d : Option Dialect) (f : Fields)
    → quote_fields d (mask_fields f) ≡ mask_fields (quote_fields d f)
unfolding quote_fields mask_fields
quote_fields-mask d f = refl

abbrev wrapped : Result Text → Text → Text → Result Text
wrapped (ok t) before after = ok (before ++ (t ++ after))
wrapped (err e) before after = err e

exists-wrapped :
    (d : Option Dialect) (negated : Bool) (sub : Result Fragment)
    → sql_of (render_predicate d true (exists negated) sub)
      ≡ wrapped (sql_of sub) (exists_keyword negated ++ codes " (") (codes ")")
unfolding render_predicate
exists-wrapped d true (ok f) = refl
exists-wrapped d false (ok f) = refl
exists-wrapped d negated (err e) = refl

quantified-sql :
    (column comparator quantifier : Text) (sub sub' : Result Fragment)
    → sql_of sub' ≡ sql_of sub
    → sql_of (render_quantified column comparator quantifier sub')
      ≡ sql_of (render_quantified column comparator quantifier sub)
unfolding render_quantified quantified_fragment
quantified-sql column comparator quantifier (ok f) (ok g) h = ground arith
quantified-sql column comparator quantifier (ok f) (err e) h = cc
quantified-sql column comparator quantifier (err e) (ok g) h = cc
quantified-sql column comparator quantifier (err e) (err x) h = ground arith

predicate-mask :
    (d : Option Dialect) (p : Predicate) (sub sub' : Result Fragment)
    → sql_of sub' ≡ sql_of sub
    → sql_of (render_predicate d true (mask_predicate p) sub')
      ≡ sql_of (render_predicate d true p sub)
predicate-mask d (compare column operator v) sub sub' h =
    unfold render_predicate in operator-mask d (get_operator operator) column v
predicate-mask d (compare_columns column operator r) sub sub' h = unfold render_predicate in refl
predicate-mask d (exists negated) sub sub' h =
    exists-wrapped d negated sub'
    ∙ ap (λ r. wrapped r (exists_keyword negated ++ codes " (") (codes ")")) h
    ∙ sym (exists-wrapped d negated sub)
predicate-mask d (quantified column comparator quantifier) sub sub' h =
    unfold render_predicate in
    quantified-sql column (strip comparator) (strip (upper quantifier)) sub sub' h

some-sql :
    (r r' : Result Fragment)
    → sql_of r' ≡ sql_of r
    → maybe_sql (r' >>= λ f. ok (some f)) ≡ maybe_sql (r >>= λ f. ok (some f))
some-sql (ok f) (ok g) h = cc
some-sql (ok f) (err e) h = cc
some-sql (err e) (ok g) h = cc
some-sql (err e) (err x) h = cc

maybe-mask :
    (d : Option Dialect) (p : Option Predicate) (sub sub' : Result Fragment)
    → sql_of sub' ≡ sql_of sub
    → maybe_sql (render_maybe d true (mask_maybe p) sub') ≡ maybe_sql (render_maybe d true p sub)
unfolding render_maybe
maybe-mask d none sub sub' h = refl
maybe-mask d (some p) sub sub' h = some-sql _ _ (predicate-mask d p sub sub' h)

pub fields-mask :
    (d : Option Dialect) (f : Fields) (sub sub' : Result Fragment)
    → sql_of sub' ≡ sql_of sub
    → maybe_sql (render_fields d true (mask_fields f) sub') ≡ maybe_sql (render_fields d true f sub)
unfolding mask_fields
fields-mask d f sub sub' h =
    unfold render_fields in
    rw (quote_fields-mask d f, build_predicate-mask (quote_fields d f))
      (maybe-mask d (build_predicate (quote_fields d f)) sub sub' h)
