-- ===== src/Safety/Examples.antt =====
-- Statements classified, and one that hides behind the quotes of two comments.
use dbbuddy.Base.{◌≡◌, ◌<◌, ◌++◌, refl, true, false, ◌∷◌, length, Text, codes, arith}
use dbbuddy.Safety.{read, write, classify_query_safety, statements}
use dbbuddy.Safety.Stacked.{IsPlain, classify-stacked}

abbrev select : Text
select = codes "SELECT 5-3/1"

abbrev drop : Text
drop = codes " drop table t"

selected : classify_query_safety select ≡ (read, false)
unfolding classify_query_safety
selected = refl

-- The quotes in the comments pair with each other, and what is between them goes with them.
hidden : classify_query_safety (codes "SELECT 1 /* ' */; DROP TABLE t /* ' */") ≡ (read, false)
unfolding classify_query_safety
hidden = refl

-- `EXPLAIN ANALYZE` runs the deletion, and no word of it is a writing keyword.
explained :
    classify_query_safety (codes "EXPLAIN ANALYZE WITH d AS (DELETE FROM t RETURNING 1) SELECT 1")
    ≡ (read, false)
unfolding classify_query_safety
explained = refl

select-IsPlain : IsPlain select
select-IsPlain = ground arith

drop-IsPlain : IsPlain drop
drop-IsPlain = ground arith

selects : 0 < length (statements select)
unfolding statements
selects = omega arith

drops : 0 < length (statements drop)
unfolding statements
drops = omega arith

classify-stacked_example : classify_query_safety (select ++ b';' ∷ drop) ≡ (write, true)
classify-stacked_example = classify-stacked select drop select-IsPlain drop-IsPlain selects drops
