-- ===== src/Joins/Names.antt =====
-- dbbuddy_core/relationship_graph.py: which table a column's name points at, and which column is a
-- table's key, where the database declares nothing.
use dbbuddy.Base.{
  ℕ, zero, suc, Bool, true, false, not, if◌then◌else◌, ◌&&◌, ◌||◌, Option, none, some, List, [],
  ◌∷◌, ◌++◌, keep, Text, same, codes, empty, lower, ◌==◌, any, reverse,
}
use dbbuddy.Base.Equality.{text_eq}
use dbbuddy.Base.Dict.{get, put, keys}

abbrev pub Schema : Type 0
Schema = List (Text × List Text)

unfoldable pub starts_with : Text → Text → Bool
starts_with [] t = true
starts_with (c ∷ p) [] = false
starts_with (c ∷ p) (d ∷ t) = c == d && starts_with p t

-- `text.endswith(suffix)`.
unfoldable pub ends_with : (suffix text : Text) → Bool
unfolding starts_with
ends_with suffix text = starts_with (reverse suffix) (reverse text)

unfoldable pub drop : ℕ → Text → Text
drop zero t = t
drop (suc n) [] = []
drop (suc n) (c ∷ t) = drop n t

-- `text[:-n]`.
unfoldable pub drop_end : ℕ → Text → Text
unfolding drop
drop_end n text = reverse (drop n (reverse text))

unfoldable pub drop_all : ℕ → Text → Text
drop_all c [] = []
drop_all c (d ∷ t) = let rest = drop_all c t in if c == d then rest else d ∷ t

-- `text.rstrip("s")`.
unfoldable pub rstrip_s : Text → Text
unfolding drop_all
rstrip_s text = reverse (drop_all b's' (reverse text))

abbrev pub words_if : Bool → Text → List Text
words_if b word = if b then word ∷ [] else []

unfoldable pub name_candidates : Text → List Text
unfolding ends_with drop_end
name_candidates stem =
    let sibilant = any (λ s. ends_with (codes s) stem) ("s" ∷ "x" ∷ "z" ∷ "ch" ∷ "sh" ∷ []) in
    stem
    ∷ (stem ++ codes "s")
    ∷ (words_if (ends_with (codes "y") stem) (drop_end 1 stem ++ codes "ies")
        ++ words_if sibilant (stem ++ codes "es"))

unfoldable pub singular_forms : Text → List Text
unfolding ends_with drop_end
singular_forms stem =
    words_if (ends_with (codes "ies") stem) (drop_end 3 stem ++ codes "y")
    ++ (words_if (ends_with (codes "es") stem) (drop_end 2 stem)
        ++ words_if (ends_with (codes "s") stem) (drop_end 1 stem))

-- `{t.lower(): t for t in names}`, read into a dictionary that is there already.
unfoldable pub by_lower : List Text → List (Text × Text) → List (Text × Text)
unfolding put lower
by_lower [] d = d
by_lower (t ∷ names) d = by_lower names (put (lower t) t d)

unfoldable pub first_hit : (table : Text) → List Text → List (Text × Text) → Option Text
unfolding get same
first_hit table [] tables = none
first_hit table (cand ∷ cands) tables =
    let rest = first_hit table cands tables in
    elim (get cand tables) [ none ↦ rest | some hit ↦ if same hit table then rest else some hit ]

unfoldable pub resolve_referenced_table : (col table : Text) → Schema → Option Text
unfolding name_candidates singular_forms by_lower first_hit lower ends_with drop_end same
resolve_referenced_table col table schema =
    let stem = drop_end 3 (lower col) in
    if not (ends_with (codes "_id") (lower col)) || (same (lower col) (codes "_id") || empty stem)
    then none
    else first_hit table (name_candidates stem ++ singular_forms stem) (by_lower (keys schema) [])

unfoldable pub first_present : List Text → List (Text × Text) → Option Text
unfolding get
first_present [] columns = none
first_present (cand ∷ cands) columns =
    let rest = first_present cands columns in
    elim (get cand columns) [ none ↦ rest | some col ↦ some col ]

abbrev pub only : List (Text × Text) → Option Text
only [] = none
only (x ∷ []) = some x.1
only (x ∷ y ∷ xs) = none

unfoldable pub primary_key_of : List Text → (table : Text) → Option Text
unfolding by_lower first_present lower rstrip_s ends_with same
primary_key_of columns table =
    let found = by_lower columns [] in
    let cands =
      codes "id"
      ∷ codes "pk"
      ∷ (lower table ++ codes "_id")
      ∷ (rstrip_s (lower table) ++ codes "_id")
      ∷ [] in
    elim (first_present cands found) [
      | none ↦ only (keep (λ (x : Text × Text). ends_with (codes "_id") x.0) found)
      | some col ↦ some col
    ]
