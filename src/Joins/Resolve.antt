-- ===== src/Joins/Resolve.antt =====
-- `resolve_joins` joins each table that the graph can reach to one that is there already.
use dbbuddy.Base.{
  ◌≡◌, refl, sym, ◌∙◌, subst, true, false, some, List, [], ◌∷◌, ◌++◌, map, Text, empty, lower, same,
  same_iff, Holds, Holds-append, arith, Bool-cases, inl, inr,
}
use dbbuddy.Base.Equality.{text_eq}
use dbbuddy.Base.Distinct.{is_in}
use dbbuddy.Base.Dict.{get, keys}
use dbbuddy.Joins.Graph.{
  Neighbours, JoinKeys, Graph, neighbours, Edge, Join, join_of, resolve_joins,
}
use dbbuddy.Joins.WellFormed.{IsGraph, neighbours-AreTables}
use dbbuddy.Joins.Chain.{IsChain, IsShortest}
use dbbuddy.Joins.Path.{find_join_path-IsShortest}
use dbbuddy.Joins.Connected.{
  right_of, AreConnected, HaveTables, Within, Within-cons, AreConnected-Within, scope_after,
  AreConnected-append, scope_after-wider,
}

-- Some path of the graph leads from one table to another.
abbrev pub IsReachable : Graph → (start target : Text) → Type 0
IsReachable graph start target = (path : List Edge) × IsChain graph start path target

chain-AreConnected :
    (graph : Graph) (start target : Text) (path : List Edge) (scope : List Text)
    → IsChain graph start path target
    → is_in (lower start) scope ≡ true
    → AreConnected scope (map join_of path)
      × (is_in (lower target) (scope_after scope (map join_of path)) ≡ true)
chain-AreConnected graph start target [] scope c h =
    (tt, subst (λ t. is_in (lower t) scope ≡ true) c h)
chain-AreConnected graph start target (e ∷ path) scope c h =
    let left : is_in (lower e.left) scope ≡ true =
      subst (λ t. is_in (lower t) scope ≡ true) c.0 h in
    let rest =
      chain-AreConnected graph e.right target path (lower e.right ∷ scope) c.2
        (ground (arith, same_iff (lower e.right) (lower e.right))) in
    ((left, rest.0), rest.1)

is_in-get :
    (tables : List Text) (t : Text) (k : JoinKeys) (ns : Neighbours)
    → Holds (λ n. is_in n.0 tables ≡ true) ns
    → get t ns ≡ some k
    → is_in t tables ≡ true
unfolding get
is_in-get tables t k [] h g = cc
is_in-get tables t k ((u, l) ∷ ns) h g =
    ground (arith, h.0, same_iff u t, is_in-get tables t k ns h.1)

is_in-Holds : (Q : Text → Type 0) (t : Text) (ts : List Text) → Holds Q ts → is_in t ts ≡ true → Q t
is_in-Holds Q t [] h k = cc
is_in-Holds Q t (u ∷ ts) h k = elim (Bool-cases (same t u)) [
  | inl b ↦ subst Q (sym ((same_iff t u).0 b)) h.0
  | inr b ↦ is_in-Holds Q t ts h.1 (ground (arith, k, b))
]

pub empty-lower : (t : Text) → empty (lower t) ≡ empty t
unfolding lower
empty-lower [] = refl
empty-lower (c ∷ t) = refl

-- No table's name is empty.
abbrev pub HasNames : Graph → Type 0
HasNames graph = Holds (λ t. empty t ≡ false) (keys graph)

pub chain-HaveTables :
    (graph : Graph) (start target : Text) (path : List Edge)
    → IsGraph graph
    → HasNames graph
    → IsChain graph start path target
    → HaveTables (map join_of path)
chain-HaveTables graph start target [] g n c = tt
chain-HaveTables graph start target (e ∷ path) g n c =
    let table =
      is_in-get (keys graph) e.right e.keys (neighbours e.left graph)
        (neighbours-AreTables graph e.left g).1 c.1 in
    (
      empty-lower e.right ∙ is_in-Holds (λ t. empty t ≡ false) e.right (keys graph) n table,
      chain-HaveTables graph e.right target path g n c.2,
    )

-- The joins of a path: connected, and if the table is reachable they bring it in.
pub record IsJoining (graph : Graph) (base : Text) (tables : List Text) (joins : List Join)
    : Type 0 where
  pub connected : AreConnected (lower base ∷ []) joins
  pub named : HasNames graph → HaveTables joins
  pub brings :
      (t : Text)
      → is_in t tables ≡ true
      → IsReachable graph base t
      → is_in (lower t) (scope_after (lower base ∷ []) joins) ≡ true

pub scope_after-append :
    (scope : List Text) (joins more : List Join)
    → scope_after scope (joins ++ more) ≡ scope_after (scope_after scope joins) more
scope_after-append scope [] more = refl
scope_after-append scope (join ∷ joins) more = scope_after-append (right_of join ∷ scope) joins more

scope_after-Within :
    (scope wider : List Text) (joins : List Join)
    → Within scope wider
    → Within (scope_after scope joins) (scope_after wider joins)
scope_after-Within scope wider [] h = h
scope_after-Within scope wider (join ∷ joins) h =
    scope_after-Within (right_of join ∷ scope) (right_of join ∷ wider) joins
      (Within-cons (right_of join) scope wider h)

IsJoining-append :
    (graph : Graph) (base t : Text) (ts : List Text) (joins more : List Join)
    → IsJoining graph base (t ∷ []) joins
    → IsJoining graph base ts more
    → IsJoining graph base (t ∷ ts) (joins ++ more)
IsJoining-append graph base t ts joins more one rest =
    let start = lower base ∷ [] in
    let grown = scope_after-wider start joins in
    record {
      connected =
          AreConnected-append start joins more one.connected
            (AreConnected-Within start (scope_after start joins) more grown rest.connected);
      named = λ n. Holds-append _ joins more (one.named n) (rest.named n);
      brings = λ u h r. rw (scope_after-append start joins more) (elim (Bool-cases (same u t)) [
        | inl b ↦
            scope_after-wider (scope_after start joins) more (lower u)
              (one.brings u (ground (arith, b)) r)
        | inr b ↦
            scope_after-Within start (scope_after start joins) more grown (lower u)
              (rest.brings u (ground (arith, b, h)) r)
      ]);
    }

module _ (graph : Graph) (base : Text) (g : IsGraph graph) where
  path_joins :
      (table : Text) (path : List Edge)
      → IsShortest graph base table path
      → IsJoining graph base (table ∷ []) (map join_of path)
  path_joins table path (inl s) =
      let c =
        chain-AreConnected graph base table path (lower base ∷ []) s.0
          (ground (arith, same_iff (lower base) (lower base))) in
      record {
        connected = c.0;
        named = λ n. chain-HaveTables graph base table path g n s.0;
        brings = λ t h r.
            let named : table ≡ t = ground (arith, h, same_iff t table) in
            subst (λ x. is_in (lower x) (scope_after (lower base ∷ []) (map join_of path)) ≡ true)
              named c.1;
      }
  path_joins table path (inr s) = rw s.0 (record {
    connected = tt;
    named = λ n. tt;
    brings = λ t h r.
        let named : t ≡ table = ground (arith, h, same_iff t table) in
        absurd (s.1 r.0 (subst (IsChain graph base r.0) named r.1));
  })

  base_first :
      (table : Text) (tables : List Text) (joins : List Join)
      → same table base ≡ true
      → IsJoining graph base tables joins
      → IsJoining graph base (table ∷ tables) joins
  base_first table tables joins b rest = record {
    connected = rest.connected;
    named = rest.named;
    brings = λ u h r. elim (Bool-cases (same u table)) [
      | inl e ↦
          let own : base ≡ u = ground (arith, b, e, same_iff table base, same_iff u table) in
          scope_after-wider (lower base ∷ []) joins (lower u) (
            subst (λ x. is_in (lower x) (lower base ∷ []) ≡ true) own
              (ground (arith, same_iff (lower base) (lower base))))
      | inr e ↦ rest.brings u (ground (arith, e, h)) r
    ];
  }

  -- In a graph that names every table once, whose tables have each neighbour once and only tables as
  -- neighbours, `resolve_joins` returns joins for every base table and list of tables. Each join
  -- starts from the base table or from one that an earlier join brings in, each has a table to join
  -- if no table's name is empty, and after them every listed table that a path of the graph leads to
  -- from the base table is in scope.
  pub resolve_joins-IsJoining :
      (tables : List Text)
      → (joins : List Join) × (resolve_joins graph base tables ≡ some joins)
        × IsJoining graph base tables joins
  unfolding resolve_joins
  resolve_joins-IsJoining [] =
      ([], refl, record { connected = tt; named = λ n. tt; brings = λ t h r. cc })
  resolve_joins-IsJoining (table ∷ tables) =
      let (joins, e, rest) = resolve_joins-IsJoining tables in
      elim (Bool-cases (same table base)) [
        | inl b ↦ (joins, ground arith, base_first table tables joins b rest)
        | inr b ↦
            let (path, found, shortest) = find_join_path-IsShortest graph base table g in
            (
              map join_of path ++ joins,
              ground arith,
              IsJoining-append graph base table tables (map join_of path) joins
                  (path_joins table path shortest) rest,
            )
      ]
