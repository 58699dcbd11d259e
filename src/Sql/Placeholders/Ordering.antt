-- ===== src/Sql/Placeholders/Ordering.antt =====
-- The ORDER BY clause and the row limit hold no percent sign.
use dbbuddy.Base.{
  ℕ, zero, suc, ◌+◌, ◌≡◌, refl, Bool, not, Option, none, some, List, [], ◌∷◌, ◌==◌, ◌||◌, ◌&&◌,
  if◌then◌else◌, arith, Text, codes, occurrences, same, empty, upper, strip_left, Bool-cases, inl,
  inr, any, Holds, same→eq,
}
use dbbuddy.Sql.Dialect.{Dialect}
use dbbuddy.Sql.Plan.{GroupItem, OrderItem, OrderBy, by_aggregation, by_item, by_items, Aggregation}
use dbbuddy.Sql.Plan
use dbbuddy.Sql.Identifiers.{quote_ref, ref, is_word}
use dbbuddy.Sql.Clauses.{
  call, span, call_argument, call_open, parse_call, call_end, direction_of, order_by_text, complete,
  order_call, names_measure, order_plain, order_main, order_item, order_items, order_clause,
  top_clause, limit_clause, is_sqlserver,
}
use dbbuddy.Sql.Placeholders.Clean.{
  percents, IsClean, percents-append, percents-cons, percents-strip_left, QuotesClean,
  percents-quote_ref, decimal-IsClean,
}
use dbbuddy.Sql.Placeholders.Clauses.{
  OrderIsClean, OrderByIsClean, AggregationIsClean, call-IsClean, ref-IsClean,
}

span-sum : (p : ℕ → Bool) (t : Text) → percents (span p t).0 + percents (span p t).1 ≡ percents t
unfolding span occurrences
span-sum p [] = refl
span-sum p (c ∷ t) = ground (arith, span-sum p t)

abbrev PairIsClean : Option (Text × Text) → Type 0
PairIsClean none = Unit
PairIsClean (some (f, a)) = IsClean f × IsClean a

call_argument-IsClean : (f t : Text) → IsClean f → IsClean t → PairIsClean (call_argument f t)
unfolding call_argument
call_argument-IsClean f t h k =
    let p : ℕ → Bool = λ c. is_word c || c == b'.' in
    elim (Bool-cases (empty f || empty (span p t).0 || not (call_end (strip_left (span p t).1)))) [
      | inl e ↦ rw e tt
      | inr e ↦ rw e (h, omega (arith, span-sum p t))
    ]

call_open-IsClean : (f t : Text) → IsClean f → IsClean t → PairIsClean (call_open f t)
unfolding call_open
call_open-IsClean f [] h k = tt
call_open-IsClean f (c ∷ t) h k = elim (Bool-cases (c == b'(')) [
  | inl e ↦ rw e (
      call_argument-IsClean f (strip_left t) h
        (omega (arith, percents-strip_left t, percents-cons c t)))
  | inr e ↦ rw e tt
]

parse_call-IsClean : (t : Text) → IsClean t → PairIsClean (parse_call t)
unfolding parse_call
parse_call-IsClean t h =
    let s = span-sum is_word (strip_left t) in
    let l = percents-strip_left t in
    call_open-IsClean (span is_word (strip_left t)).0 (strip_left (span is_word (strip_left t)).1)
      (omega (arith, s, l))
      (omega (arith, s, l, percents-strip_left (span is_word (strip_left t)).1))

direction_of-IsClean : (t : Text) → IsClean (direction_of t)
unfolding direction_of occurrences
direction_of-IsClean t = elim (Bool-cases (same (upper t) (codes "ASC"))) [
  | inl e ↦ ground (arith, same→eq (upper t) (codes "ASC"))
  | inr e ↦ ground (arith, same→eq (upper t) (codes "DESC"))
]

text-IsClean : (e t : Text) → IsClean e → IsClean t → IsClean (order_by_text e t)
unfolding occurrences
text-IsClean e t h k = omega (arith, percents-append)

complete-IsClean : (a : Option Aggregation) → AggregationIsClean a → AggregationIsClean (complete a)
unfolding complete
complete-IsClean none h = tt
complete-IsClean (some a) h = elim (Bool-cases (empty a.table || empty a.column)) [
  | inl e ↦ rw e tt
  | inr e ↦ rw e h
]

module _ (d : Option Dialect) (q : QuotesClean d) where
  measure-IsClean :
      (f table column t : Text)
      → IsClean f
      → IsClean table
      → IsClean column
      → IsClean t
      → IsClean (order_by_text (call f (ref d table column)) t)
  measure-IsClean f table column t h k l m =
      text-IsClean (call f (ref d table column)) t
        (call-IsClean f (ref d table column) h (ref-IsClean d q table column k l)) m

  order_call-IsClean :
      (col : Text) (p : Option (Text × Text)) (a : Option Aggregation) (t : Text)
      → IsClean col
      → PairIsClean p
      → AggregationIsClean a
      → IsClean t
      → IsClean (order_call d col p a t)
  unfolding order_call
  order_call-IsClean col none none t h k l m = text-IsClean col t h m
  order_call-IsClean col (some (f, i)) none t h k l m =
      text-IsClean (call f (quote_ref d i)) t
        (call-IsClean f (quote_ref d i) k.0 (omega (arith, percents-quote_ref d i q, k.1))) m
  order_call-IsClean col none (some a) t h k l m =
      measure-IsClean a.function a.table a.column t l.0 l.1 l.2 m
  order_call-IsClean col (some (f, i)) (some a) t h k l m =
      measure-IsClean f a.table a.column t k.0 l.1 l.2 m

  plain-IsClean :
      (gs : List GroupItem) (column : Text) (a : Option Aggregation) (t : Text)
      → AggregationIsClean a
      → IsClean t
      → IsClean (order_plain d gs column a t)
  unfolding order_plain occurrences
  plain-IsClean gs column a t h m = go (complete a) (complete-IsClean a h)
    where
      go :
          (o : Option Aggregation)
          → AggregationIsClean o
          → IsClean (elim o [
            | none ↦ []
            | some a ↦
                if names_measure gs column a && not (empty a.function)
                then order_by_text (call a.function (ref d a.table a.column)) t
                else []
          ])
      go none k = refl
      go (some a) k = elim (Bool-cases (names_measure gs column a && not (empty a.function))) [
        | inl e ↦ rw e (measure-IsClean a.function a.table a.column t k.0 k.1 k.2 m)
        | inr e ↦ rw e refl
      ]

  structured-IsClean :
      (o : OrderItem) (f t : Text)
      → IsClean f
      → OrderIsClean o
      → IsClean t
      → IsClean (
          if empty o.table || empty o.column || empty f
          then []
          else order_by_text (call f (ref d o.table o.column)) t)
  unfolding occurrences
  structured-IsClean o f t h k m = elim (Bool-cases (empty o.table || empty o.column || empty f)) [
    | inl e ↦ rw e refl
    | inr e ↦ rw e (measure-IsClean f o.table o.column t h k.0 k.1 m)
  ]

  order_main-IsClean :
      (gs : List GroupItem) (a : Option Aggregation) (o : OrderItem) (t : Text)
      → AggregationIsClean a
      → OrderIsClean o
      → IsClean t
      → IsClean (order_main d gs a o t)
  unfolding order_main
  order_main-IsClean gs a o t h k m = go o.aggregation k.2
    where
      go :
          (g : Option Text)
          → (elim g as (λ _. Type 0) [ none ↦ Unit | some a ↦ IsClean a ])
          → IsClean (elim g [
            | some f ↦
                if empty o.table || empty o.column || empty f
                then []
                else order_by_text (call f (ref d o.table o.column)) t
            | none ↦
                if any (λ c. c == b'(') o.column
                then order_call d o.column (parse_call o.column) (complete a) t
                else order_plain d gs o.column a t
          ])
      go (some f) x = structured-IsClean o f t x k m
      go none x = elim (Bool-cases (any (λ c. c == b'(') o.column)) [
        | inl e ↦ rw e (
            order_call-IsClean o.column (parse_call o.column) (complete a) t k.1
              (parse_call-IsClean o.column k.1) (complete-IsClean a h) m)
        | inr e ↦ rw e (plain-IsClean gs o.column a t h m)
      ]

  order_item-IsClean :
      (gs : List GroupItem) (a : Option Aggregation) (o : OrderItem)
      → AggregationIsClean a
      → OrderIsClean o
      → IsClean (order_item d gs a o)
  unfolding order_item
  order_item-IsClean gs a o h k =
      let t = direction_of o.direction in
      let clean = direction_of-IsClean o.direction in
      let main = order_main d gs a o t in
      elim (Bool-cases
        (empty main && not (empty o.column) && not (any (λ c. c == b'(') o.column))) [
          | inl e ↦ rw e (
              text-IsClean (ref d o.table o.column) t (ref-IsClean d q o.table o.column k.0 k.1)
                clean)
          | inr e ↦ rw e (order_main-IsClean gs a o t h k clean)
        ]

  order_items-AreClean :
      (a : Option Aggregation) (o : OrderBy)
      → AggregationIsClean a
      → OrderByIsClean o
      → Holds OrderIsClean (order_items a o)
  unfolding order_items occurrences
  order_items-AreClean a Plan.OrderBy.unordered h k = tt
  order_items-AreClean none (by_aggregation t) h k = ((refl, refl, tt), tt)
  order_items-AreClean (some a) (by_aggregation t) h k = ((h.1, h.2, h.0), tt)
  order_items-AreClean a (by_item o) h k = (k, tt)
  order_items-AreClean a (by_items os) h k = k

  clause-IsClean :
      (gs : List GroupItem) (a : Option Aggregation) (os : List OrderItem)
      → AggregationIsClean a
      → Holds OrderIsClean os
      → IsClean (order_clause d gs a os)
  unfolding order_clause occurrences
  clause-IsClean gs a [] h k = refl
  clause-IsClean gs a (o ∷ os) h k = order_item-IsClean gs a o h k.0

  pub order_clause-IsClean :
      (gs : List GroupItem) (a : Option Aggregation) (o : OrderBy)
      → AggregationIsClean a
      → OrderByIsClean o
      → IsClean (order_clause d gs a (order_items a o))
  order_clause-IsClean gs a o h k =
      clause-IsClean gs a (order_items a o) h (order_items-AreClean a o h k)

pub top_clause-IsClean : (engine : Text) (n : ℕ) → IsClean (top_clause engine n)
unfolding top_clause occurrences
top_clause-IsClean engine zero = refl
top_clause-IsClean engine (suc n) = elim (Bool-cases (is_sqlserver engine)) [
  | inl e ↦ rw e (omega (arith, percents-append, decimal-IsClean (suc n)))
  | inr e ↦ rw e refl
]

pub limit_clause-IsClean : (engine : Text) (n : ℕ) → IsClean (limit_clause engine n)
unfolding limit_clause occurrences
limit_clause-IsClean engine zero = refl
limit_clause-IsClean engine (suc n) = elim (Bool-cases (is_sqlserver engine)) [
  | inl e ↦ rw e refl
  | inr e ↦ rw e (omega (arith, decimal-IsClean (suc n)))
]
