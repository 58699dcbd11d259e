-- ===== src/Joins/Chain.antt =====
-- Paths of a graph, and the paths that one step of the search adds.
use dbbuddy.Base.{
  ℕ, suc, ◌≤◌, ◌≡◌, ◌≢◌, refl, ◌∙◌, true, false, ◌||◌, some, List, [], ◌∷◌, ◌++◌, length,
  length-append, Text, same_iff, Holds, arith, Bool-cases, inl, inr, ◌⊎◌,
}
use dbbuddy.Base.Equality.{text_eq}
use dbbuddy.Base.Distinct.{Distinct, is_in}
use dbbuddy.Base.Dict.{get, get-first, get-later, keys}
use dbbuddy.Joins.Graph.{JoinKeys, Neighbours, Graph, neighbours, Edge, Entry, expand}
use dbbuddy.Joins.Weight.{expand-visited, expand-new}

-- The graph has this edge, with these join keys.
abbrev pub IsRoad : Graph → Edge → Type 0
IsRoad graph e = get e.right (neighbours e.left graph) ≡ some e.keys

-- Edges of the graph that lead from one table to another, each from where the last one ended.
abbrev pub IsChain : Graph → (start : Text) → List Edge → (target : Text) → Type 0
IsChain graph start [] target = start ≡ target
IsChain graph start (e ∷ path) target =
    (start ≡ e.left) × IsRoad graph e × IsChain graph e.right path target

-- A chain, and no chain is shorter; or none at all.
abbrev pub IsShortest : Graph → (start target : Text) → List Edge → Type 0
IsShortest graph start target path =
    (IsChain graph start path target
      × ((p : List Edge) → IsChain graph start p target → length path ≤ length p))
    ⊎ ((path ≡ []) × ((p : List Edge) → ¬ IsChain graph start p target))

IsChain-append :
    (graph : Graph) (start middle : Text) (path : List Edge) (e : Edge)
    → IsChain graph start path middle
    → middle ≡ e.left
    → IsRoad graph e
    → IsChain graph start (path ++ e ∷ []) e.right
IsChain-append graph start middle [] e h k r = (h ∙ k, r, refl)
IsChain-append graph start middle (x ∷ path) e h k r =
    (h.0, h.1, IsChain-append graph x.right middle path e h.2 k r)

later_roads :
    (t : Text) (k : JoinKeys) (ms ns : Neighbours)
    → Holds (λ u. t ≢ u) (keys ms)
    → Holds (λ n. get n.0 ns ≡ some n.1) ms
    → Holds (λ n. get n.0 ((t, k) ∷ ns) ≡ some n.1) ms
later_roads t k [] ns h g = tt
later_roads t k ((u, l) ∷ ms) ns h g =
    (get-later t u k ns (ground (arith, h.0, same_iff t u)) ∙ g.0, later_roads t k ms ns h.1 g.1)

pub own_roads : (ns : Neighbours) → Distinct (keys ns) → Holds (λ n. get n.0 ns ≡ some n.1) ns
own_roads [] h = tt
own_roads ((t, k) ∷ ns) h =
    (get-first t t k ns ((same_iff t t).1 refl), later_roads t k ns ns h.0 (own_roads ns h.1))

pub expand-paths :
    (graph : Graph) (start current : Text) (visited : List Text) (path : List Edge) (d : ℕ)
    → IsChain graph start path current
    → length path ≡ d
    → (ns : Neighbours) → Holds (λ n. get n.0 (neighbours current graph) ≡ some n.1) ns
    → Holds
        (λ (x : Entry). IsChain graph start x.1 x.0 × (length x.1 ≡ suc d))
        (expand visited current path ns)
unfolding expand
expand-paths graph start current visited path d h e [] g = tt
expand-paths graph start current visited path d h e ((t, k) ∷ ns) g =
    let edge : Edge = record { left = current; right = t; keys = k } in
    let rest = expand-paths graph start current visited path d h e ns g.1 in
    elim (Bool-cases (is_in t visited)) [
      | inl b ↦ rw (expand-visited visited current path t k ns b) rest
      | inr b ↦ rw (expand-new visited current path t k ns b) (
        (
          IsChain-append graph start current path edge h refl g.0,
          omega (arith, length-append path (edge ∷ [])),
        ),
        rest,
      )
    ]

pub expand-in :
    (visited : List Text) (current t : Text) (path : List Edge) (k : JoinKeys) (ns : Neighbours)
    → get t ns ≡ some k
    → is_in t visited ≡ false
    → is_in t (keys (expand visited current path ns)) ≡ true
unfolding expand get
expand-in visited current t path k [] g h = cc
expand-in visited current t path k ((u, l) ∷ ns) g h =
    ground (arith, same_iff u t, same_iff t u, expand-in visited current t path k ns)

pub is_in-keys-append :
    (t : Text) (p q : List Entry) → is_in t (keys (p ++ q)) ≡ is_in t (keys p) || is_in t (keys q)
is_in-keys-append t [] q = refl
is_in-keys-append t (x ∷ p) q = ground (arith, is_in-keys-append t p q)
