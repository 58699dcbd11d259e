-- ===== src/Joins/Search.antt =====
-- `find_join_path` ends: the fuel is enough for every graph that is well formed.
use dbbuddy.Base.{
  ℕ, zero, suc, ◌≤◌, ◌<◌, ◌≢◌, none, List, [], ◌∷◌, ◌++◌, length, length-map, length-keep-le, Text,
  arith,
}
use dbbuddy.Base.Equality.{text_eq}
use dbbuddy.Base.Dict.{keys}
use dbbuddy.Joins.Graph.{
  Neighbours, Graph, neighbours, Entry, expand, search, entries, find_join_path,
}
use dbbuddy.Joins.WellFormed.{IsGraph, neighbours-AreTables}
use dbbuddy.Joins.Weight.{
  is_new, unvisited, weight, total, total-append, total-cons-le, expand-lt, entries_mono,
}

module _ (graph : Graph) (target : Text) (h : IsGraph graph) where
  search_returns :
      (fuel : ℕ) (queue : List Entry) (visited : List Text)
      → total (keys graph) visited queue < fuel
      → search graph target fuel queue visited ≢ none
  unfolding search total
  search_returns zero queue visited k = elim k [ ]
  search_returns (suc fuel) [] visited k = cc
  search_returns (suc fuel) ((current, path) ∷ queue) visited k =
      let children = expand (current ∷ visited) current path (neighbours current graph) in
      ground (
        arith,
        expand-lt (keys graph) visited current path (neighbours current graph)
            (neighbours-AreTables graph current h),
        total-append (keys graph) (current ∷ visited) queue children,
        total-cons-le (keys graph) visited current queue,
        search_returns fuel (queue ++ children) (current ∷ visited),
      )

  -- In a graph that names every table once, whose tables have each neighbour once and only tables as
  -- neighbours, `find_join_path` ends for every start and target: the search comes to its end.
  pub find_join_path-returns : (start : Text) → find_join_path graph start target ≢ none
  unfolding find_join_path total weight unvisited
  find_join_path-returns start =
      let few : unvisited (keys graph) (start ∷ []) ≤ length graph = omega (
        arith,
        length-keep-le (is_new (start ∷ [])) (keys graph),
        length-map (λ (e : Text × Neighbours). e.0) graph,
      ) in
      search_returns (suc (entries (length graph))) ((start, []) ∷ []) []
        (omega (arith, entries_mono (unvisited (keys graph) (start ∷ [])) (length graph) few))
