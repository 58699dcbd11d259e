-- ===== src/Sql/Kept.antt =====
-- No condition of a plan is dropped, and how a row limit is written.
use dbbuddy.Base.{
  ℕ, ◌+◌, Bool, true, false, not, Option, none, some, [], ◌||◌, if◌then◌else◌, codes, same, empty,
  upper, strip,
}
use dbbuddy.Sql.Dialect.{Dialect}
use dbbuddy.Sql.Plan.{Fields, Specs, nil, cons, spec}
use dbbuddy.Sql.Conditions.{or_else}

-- What an entry must have to say something: a column, a quantifier or an EXISTS.
abbrev pub says_something : Fields → Bool
says_something f =
    let op = strip (upper (or_else f.operator [])) in
    same op (codes "EXISTS")
    || same op (codes "NOT EXISTS")
    || not (empty f.quantifier)
    || not (empty f.column)

abbrev pub count_entries : Specs → ℕ
count_entries nil = 0
count_entries (cons (spec f sub) rest) = (if says_something f then 1 else 0) + count_entries rest

abbrev is_some {ℓ} : {A : Type ℓ} → Option A → Bool
is_some none = false
is_some (some a) = true
