-- ===== src/Sql/Placeholders/Clean.antt =====
-- Texts without a percent sign, and that the text functions of the compiler keep them so.
use dbbuddy.Base.{
  ℕ, zero, suc, ◌+◌, ◌/◌, ◌%◌, ◌≤◌, ◌≡◌, ◌≢◌, refl, Bool, Option, none, some, List, [], ◌∷◌, ◌++◌,
  ◌==◌, if◌then◌else◌, arith, Text, upper, lower, strip, strip_left, join, join_rest, decimal,
  decimal_fuel, occurrences, occurrences-append, Holds, codes, empty,
}
use mathlib.Core.List.{reverse, reverse-cons}
use dbbuddy.Sql.Dialect.{
  Dialect, double, Engine, get_dialect, mysql, postgresql, sqlserver, normalize, dialect_of,
}
use dbbuddy.Sql.Identifiers.{quote, quoted, quote_ref, ref, partition, quote_parts}

abbrev pub percents : Text → ℕ
percents = occurrences b'%'

abbrev pub IsClean : Text → Type 0
IsClean t = percents t ≡ 0

pub percents-append : (t u : Text) → percents (t ++ u) ≡ percents t + percents u
percents-append = occurrences-append b'%'

pub percents-cons :
    (c : ℕ) (t : Text) → percents (c ∷ t) ≡ (if b'%' == c then 1 else 0) + percents t
unfolding occurrences
percents-cons c t = refl

pub percents-upper : (t : Text) → percents (upper t) ≡ percents t
unfolding occurrences upper
percents-upper [] = refl
percents-upper (c ∷ t) = ground (arith, percents-upper t)

pub percents-lower : (t : Text) → percents (lower t) ≡ percents t
unfolding occurrences lower
percents-lower [] = refl
percents-lower (c ∷ t) = ground (arith, percents-lower t)

percents-reverse : (t : Text) → percents (reverse t) ≡ percents t
unfolding occurrences
percents-reverse [] = refl
percents-reverse (c ∷ t) =
    rw (reverse-cons c t, percents-append (reverse t) (c ∷ []), percents-reverse t) (omega arith)

pub percents-strip_left : (t : Text) → percents (strip_left t) ≤ percents t
unfolding occurrences strip_left
percents-strip_left [] = omega arith
percents-strip_left (c ∷ t) = ground (arith, percents-strip_left t)

pub percents-strip : (t : Text) → percents (strip t) ≤ percents t
unfolding strip
percents-strip t = rw percents-reverse (
    omega (
      arith,
      percents-strip_left (reverse (strip_left t)),
      percents-reverse (strip_left t),
      percents-strip_left t,
    ))

pub percents-double : (q : ℕ) (t : Text) → q ≢ b'%' → percents (double q t) ≡ percents t
unfolding occurrences double
percents-double q [] h = refl
percents-double q (c ∷ t) h = ground (arith, percents-double q t h)

percents-join_rest :
    (sep : Text) (ts : List Text) → IsClean sep → Holds IsClean ts → IsClean (join_rest sep ts)
unfolding occurrences join_rest
percents-join_rest sep [] h hs = refl
percents-join_rest sep (t ∷ ts) h hs = omega (
  arith,
  percents-append sep (t ++ join_rest sep ts),
  percents-append t (join_rest sep ts),
  percents-join_rest sep ts h hs.1,
  hs.0,
)

pub join-IsClean :
    (sep : Text) (ts : List Text) → IsClean sep → Holds IsClean ts → IsClean (join sep ts)
unfolding join occurrences
join-IsClean sep [] h hs = refl
join-IsClean sep (t ∷ ts) h hs =
    omega (arith, percents-append t (join_rest sep ts), percents-join_rest sep ts h hs.1, hs.0)

decimal_fuel-IsClean : (fuel n : ℕ) (acc : Text) → IsClean acc → IsClean (decimal_fuel fuel n acc)
unfolding decimal_fuel occurrences
decimal_fuel-IsClean zero n acc h = h
decimal_fuel-IsClean (suc fuel) n acc h =
    ground (arith, decimal_fuel-IsClean fuel (n / 10) ((48 + n % 10) ∷ acc))

pub decimal-IsClean : (n : ℕ) → IsClean (decimal n)
unfolding decimal
decimal-IsClean n = decimal_fuel-IsClean (suc n) n [] (unfold occurrences in refl)

-- The dialects quote with another character than the percent sign.
abbrev pub QuotesClean : Option Dialect → Type 0
QuotesClean none = Unit {0}
QuotesClean (some d) = d.capabilities.identifier_quote_char ≢ b'%'

pub get_dialect-QuotesClean :
    (installed : Engine → Bool) (engine : Text) → QuotesClean (get_dialect installed engine)
unfolding get_dialect
get_dialect-QuotesClean installed engine =
    go (normalize (if empty engine then codes "mysql" else engine))
  where
    go :
        (e : Option Engine)
        → QuotesClean
            (elim e [ none ↦ none | some e ↦ if installed e then some (dialect_of e) else none ])
    go none = tt
    go (some mysql) = ground arith
    go (some postgresql) = ground arith
    go (some sqlserver) = ground arith

percents-quoted :
    (d : Option Dialect) (t : Text) → QuotesClean d → percents (quoted d t) ≡ percents t
unfolding quoted occurrences
percents-quoted none t h =
    ground (arith, percents-double 34 t, percents-append (double 34 t) (34 ∷ []))
percents-quoted (some d) t h =
    let q = d.capabilities.identifier_quote_char in
    ground (arith, percents-double q t h, percents-append (double q t) (q ∷ []))

pub percents-quote :
    (d : Option Dialect) (t : Text) → QuotesClean d → percents (quote d t) ≡ percents t
unfolding quote
percents-quote d t h = ground (arith, percents-quoted d t h)

abbrev PartsSum : Text → Option (Text × Text) → Type 0
PartsSum t none = Unit {0}
PartsSum t (some (l, r)) = percents l + percents r ≡ percents t

partition-sum : (t : Text) → PartsSum t (partition t)
unfolding partition occurrences
partition-sum [] = tt
partition-sum (c ∷ t) = ground (arith, partition-sum t)

quote_parts-clean :
    (d : Option Dialect) (s : Text) (parts : Option (Text × Text))
    → QuotesClean d
    → PartsSum s parts
    → percents (quote_parts d s parts) ≡ percents s
unfolding quote_parts occurrences
quote_parts-clean d s none h p = percents-quote d s h
quote_parts-clean d s (some (l, r)) h p = ground (
  arith,
  percents-quote d s h,
  percents-quote d l h,
  percents-quote d r h,
  percents-append (quote d l) (b'.' ∷ quote d r),
)

pub percents-quote_ref :
    (d : Option Dialect) (s : Text) → QuotesClean d → percents (quote_ref d s) ≡ percents s
unfolding quote_ref
percents-quote_ref d s h = ground (arith, quote_parts-clean d s (partition s) h (partition-sum s))

pub percents-ref :
    (d : Option Dialect) (table column : Text)
    → QuotesClean d
    → percents (ref d table column) ≡ percents table + percents column
unfolding ref occurrences
percents-ref d [] column h = omega (arith, percents-quote_ref d column h)
percents-ref d (c ∷ table) column h = omega (
  arith,
  percents-append (quote d (c ∷ table)) (b'.' ∷ quote_ref d column),
  percents-cons b'.' (quote_ref d column),
  percents-quote d (c ∷ table) h,
  percents-quote_ref d column h,
)
