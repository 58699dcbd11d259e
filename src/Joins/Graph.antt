-- ===== src/Joins/Graph.antt =====
-- The graph, its edges, and `find_join_path` with `resolve_joins`.
use dbbuddy.Base.{
  ℕ, zero, suc, ◌+◌, ◌*◌, Bool, true, false, if◌then◌else◌, ◌&&◌, ◌||◌, Option, none, some, List,
  [], ◌∷◌, ◌++◌, map, length, Text, same, codes, ltb, ◌==◌, any,
}
use dbbuddy.Base.Equality.{text_eq}
use dbbuddy.Base.Distinct.{is_in}
use dbbuddy.Base.Dict.{get_or}

-- `alternates` are the other ways to make the join.
pub record JoinKeys : Type 0 where
  pub from_col : Text
  pub to_col : Text
  pub alternates : List (Text × Text)

abbrev pub Neighbours : Type 0
Neighbours = List (Text × JoinKeys)

abbrev pub Graph : Type 0
Graph = List (Text × Neighbours)

abbrev pub neighbours : Text → Graph → Neighbours
neighbours table graph = get_or table [] graph

-- One step of a path: `(left, right, (left_key, right_key))`.
pub record Edge : Type 0 where
  pub left : Text
  pub right : Text
  pub keys : JoinKeys

abbrev pub Entry : Type 0
Entry = Text × List Edge

-- What one table adds to the queue.
unfoldable pub expand : (visited : List Text) (current : Text) → List Edge → Neighbours → List Entry
expand visited current path [] = []
expand visited current path ((table, keys) ∷ ns) =
    let rest = expand visited current path ns in
    let entry : Entry =
      (table, path ++ record { left = current; right = table; keys = keys } ∷ []) in
    if is_in table visited then rest else entry ∷ rest

-- The loop; `none` where the fuel runs out.
unfoldable pub search :
    Graph → (target : Text) (fuel : ℕ) → List Entry → List Text → Option (List Edge)
unfolding expand
search graph target zero queue visited = none
search graph target (suc fuel) [] visited = some []
search graph target (suc fuel) ((current, path) ∷ queue) visited =
    let rest =
      search graph target fuel
        (queue ++ expand (current ∷ visited) current path (neighbours current graph))
        (current ∷ visited) in
    if same current target then some path else rest

-- How many entries a table can lead to while `n` tables are unvisited.
abbrev pub entries : ℕ → ℕ
entries zero = 1
entries (suc n) = 1 + suc n * entries n

unfoldable pub find_join_path : Graph → (start target : Text) → Option (List Edge)
unfolding search
find_join_path graph start target =
    search graph target (suc (entries (length graph))) ((start, []) ∷ []) []

-- A join of a plan.
pub record Join : Type 0 where
  pub left_table : Text
  pub right_table : Text
  pub left_key : Text
  pub right_key : Text

abbrev pub join_of : Edge → Join
join_of e = record {
  left_table = e.left;
  right_table = e.right;
  left_key = e.keys.from_col;
  right_key = e.keys.to_col;
}

unfoldable pub resolve_joins : Graph → (base_table : Text) → List Text → Option (List Join)
unfolding find_join_path
resolve_joins graph base [] = some []
resolve_joins graph base (table ∷ tables) =
    let rest = resolve_joins graph base tables in
    if same table base then rest else (elim (find_join_path graph base table) [
      | none ↦ none
      | some path ↦ (elim rest [ none ↦ none | some joins ↦ some (map join_of path ++ joins) ])
    ])

-- Whether one table ranks above another: by degree, then as a parent, then by name, where `name_lt`
-- is Python's order of texts.
unfoldable pub name_lt : Text → Text → Bool
name_lt t [] = false
name_lt [] (d ∷ u) = true
name_lt (c ∷ t) (d ∷ u) = ltb c d || (c == d && name_lt t u)

abbrev pub Score : Type 0
Score = ℕ × ℕ × Text

unfoldable pub score : Graph → Text → Score
unfolding same
score graph table =
    let edges = neighbours table graph in
    let is_parent = any (λ n. same n.1.from_col (codes "id")) edges in
    (length edges, if is_parent then 1 else 0, table)

unfoldable pub score_lt : Score → Score → Bool
unfolding name_lt
score_lt s t = ltb s.0 t.0 || (s.0 == t.0 && (ltb s.1 t.1 || (s.1 == t.1 && name_lt s.2 t.2)))

-- `max(tables, key=score)` from a first candidate.
unfoldable pub best_table : Graph → Text → List Text → Text
unfolding score score_lt
best_table graph best [] = best
best_table graph best (t ∷ ts) =
    let kept = best_table graph best ts in
    let changed = best_table graph t ts in
    if score_lt (score graph best) (score graph t) then changed else kept

unfoldable pub determine_base_table : List Text → Graph → Option Text
unfolding best_table
determine_base_table [] graph = none
determine_base_table (t ∷ ts) graph = some (best_table graph t ts)
