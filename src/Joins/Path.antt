-- ===== src/Joins/Path.antt =====
-- What `find_join_path` finds: a path of the graph, and none shorter.
use dbbuddy.Base.{
  Option-cases, ℕ, zero, suc, ◌≡◌, refl, true, false, some, List, [], ◌∷◌, ◌++◌, length, Text, same,
  same_iff, arith, Bool-cases, inl, inr, append-nil, append_assoc,
}
use native.Mathlib.Decide.{dec_lt}
use dbbuddy.Base.Equality.{text_eq}
use dbbuddy.Joins.Graph.{Graph, neighbours, Edge, Entry, expand, search, entries, find_join_path}
use dbbuddy.Joins.WellFormed.{IsGraph}
use dbbuddy.Joins.Search.{find_join_path-returns}
use dbbuddy.Joins.Chain.{IsShortest}
use dbbuddy.Joins.Level.{chain-Reaches, IsLevel, all_visited, next-IsLevel, pop-IsLevel}

module _ (graph : Graph) (start target : Text) where
  search-cons :
      (fuel : ℕ) (current : Text) (path : List Edge) (queue : List Entry) (visited : List Text)
      → same current target ≡ false
      → search graph target (suc fuel) ((current, path) ∷ queue) visited
        ≡ search graph target fuel
            (queue ++ expand (current ∷ visited) current path (neighbours current graph))
            (current ∷ visited)
  unfolding search
  search-cons fuel current path queue visited h = rw (h, search)

  search-target :
      (fuel : ℕ) (current : Text) (path : List Edge) (queue : List Entry) (visited : List Text)
      → same current target ≡ true
      → search graph target (suc fuel) ((current, path) ∷ queue) visited ≡ some path
  unfolding search
  search-target fuel current path queue visited h = rw (h, search)

  head-IsShortest :
      (d : ℕ) (current : Text) (path : List Edge) (near far : List Entry) (visited : List Text)
      → same current target ≡ true
      → IsLevel graph start target d ((current, path) ∷ near) far visited
      → IsShortest graph start target path
  head-IsShortest d current path near far visited e h =
      let found : current ≡ target = (same_iff current target).0 e in
      inl (
        rw (← found) h.near_paths.0.0,
        λ p c. elim (dec_lt (length p) d) [
          | yes l ↦ absurd (
              ground (
                arith,
                h.not_yet,
                h.before (length p) target l (
                    chain-Reaches graph start target p 0 (length p) start target (omega arith) refl
                      c),
              ))
          | no l ↦ omega (arith, h.near_paths.0.1)
        ],
      )

  empty-IsShortest :
      (d : ℕ) (visited : List Text)
      → IsLevel graph start target d [] [] visited
      → IsShortest graph start target []
  empty-IsShortest d visited h = inr (
    refl,
    λ p c. ground (
      arith,
      h.not_yet,
      all_visited graph start target d visited h (length p) target
          (chain-Reaches graph start target p 0 (length p) start target (omega arith) refl c),
    ),
  )

  -- What the rest of a search returns.
  Finds : ℕ → List Entry → List Text → Type 0
  Finds fuel queue visited =
      (path : List Edge)
      → search graph target fuel queue visited ≡ some path
      → IsShortest graph start target path

  pop-Finds :
      (fuel d : ℕ) (current : Text) (path : List Edge) (near far : List Entry) (visited : List Text)
      → IsGraph graph
      → ((far' : List Entry)
          → IsLevel graph start target d near far' (current ∷ visited)
          → Finds fuel (near ++ far') (current ∷ visited))
      → IsLevel graph start target d ((current, path) ∷ near) far visited
      → Finds (suc fuel) ((current, path) ∷ near ++ far) visited
  unfolding Finds
  pop-Finds fuel d current path near far visited g ih h p r =
      let children = expand (current ∷ visited) current path (neighbours current graph) in
      elim (Bool-cases (same current target)) [
        | inl e ↦
            let same_path : path ≡ p =
              cc (search-target fuel current path (near ++ far) visited e) in
            rw (← same_path) (head-IsShortest d current path near far visited e h)
        | inr e ↦
            ih (far ++ children)
              (pop-IsLevel graph start target d current path near far visited g e h) p
              (rw
                (
                  ← append_assoc near far children,
                  ← search-cons fuel current path (near ++ far) visited e,
                )
                r)
      ]

  search-Finds :
      (fuel d : ℕ) (near far : List Entry) (visited : List Text)
      → IsGraph graph
      → IsLevel graph start target d near far visited
      → Finds fuel (near ++ far) visited
  unfolding Finds search
  search-Finds zero d near far visited g h p r = cc
  search-Finds (suc fuel) d [] [] visited g h p r =
      let same_path : [] ≡ p = ground arith in rw (← same_path) (empty-IsShortest d visited h)
  search-Finds (suc fuel) d [] ((t, path) ∷ far) visited g h p r =
      pop-Finds fuel (suc d) t path far [] visited g
        (λ far'. λ l. search-Finds fuel (suc d) far far' (t ∷ visited) g l)
        (next-IsLevel graph start target d ((t, path) ∷ far) visited h) p
        (rw (append-nil {A = Entry}) r)
  search-Finds (suc fuel) d ((t, path) ∷ near) far visited g h p r =
      pop-Finds fuel d t path near far visited g
        (λ far'. λ l. search-Finds fuel d near far' (t ∷ visited) g l) h p r

  start-IsLevel : IsLevel graph start target 0 ((start, []) ∷ []) [] []
  start-IsLevel = record {
    near_paths = ((refl, refl), tt);
    far_paths = tt;
    before = λ n t l r. elim l [ ];
    level = λ t r. ground (arith, same_iff t start);
    closed = λ v t k e g. cc;
    not_yet = refl;
  }

  -- In a graph that names every table once, whose tables have each neighbour once and only tables as
  -- neighbours, `find_join_path` returns a path for every start and target. The path is a chain of
  -- edges of the graph from the start to the target and no such chain is shorter, or it is empty and
  -- no chain leads from the start to the target.
  pub find_join_path-IsShortest :
      IsGraph graph
      → (path : List Edge) × (find_join_path graph start target ≡ some path)
        × IsShortest graph start target path
  unfolding find_join_path Finds
  find_join_path-IsShortest g = elim (Option-cases (find_join_path graph start target)) [
    | inl e ↦ absurd (find_join_path-returns graph target g start e)
    | inr (path, e) ↦ (
      path,
      e,
      search-Finds (suc (entries (length graph))) 0 ((start, []) ∷ []) [] [] g start-IsLevel path e,
    )
  ]
