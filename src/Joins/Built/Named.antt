-- ===== src/Joins/Built/Named.antt =====
-- The edges that the names of the columns suggest.
use dbbuddy.Base.{
  ◌≡◌, subst, some, Option-cases, List, [], ◌∷◌, ◌++◌, Text, same, lower, Holds, arith, Bool-cases,
  inl, inr,
}
use dbbuddy.Base.Equality.{text_eq}
use dbbuddy.Base.Dict.{get, put, keys, get_or, Holds-put, Holds-get}
use dbbuddy.Joins.Graph.{Graph}
use dbbuddy.Joins.Names.{
  drop_end, Schema, by_lower, first_hit, name_candidates, singular_forms, resolve_referenced_table,
  primary_key_of,
}
use dbbuddy.Joins.Build.{or_text, add_named, add_all_named}
use dbbuddy.Joins.Built.Link.{IsRelated, option-IsRelated, else_case, IsTable, default-IsRelated}

module _ (tables : List Text) where
  by_lower-AreTables :
      (names : List Text) (d : List (Text × Text))
      → Holds (IsTable tables) names
      → Holds (λ (x : Text × Text). IsTable tables x.1) d
      → Holds (λ (x : Text × Text). IsTable tables x.1) (by_lower names d)
  unfolding by_lower
  by_lower-AreTables [] d h k = k
  by_lower-AreTables (t ∷ names) d h k =
      by_lower-AreTables names (put (lower t) t d) h.1
        (Holds-put (λ (x : Text × Text). IsTable tables x.1) (lower t) t d h.0 k)

  first_hit-IsTable :
      (table hit : Text) (cands : List Text) (d : List (Text × Text))
      → Holds (λ (x : Text × Text). IsTable tables x.1) d
      → first_hit table cands d ≡ some hit
      → IsTable tables hit
  unfolding first_hit
  first_hit-IsTable table hit [] d h e = cc
  first_hit-IsTable table hit (cand ∷ cands) d h e = elim (Option-cases (get cand d)) [
    | inl g ↦ first_hit-IsTable table hit cands d h (ground arith)
    | inr (found, g) ↦ elim (Bool-cases (same found table)) [
      | inl b ↦ first_hit-IsTable table hit cands d h (ground arith)
      | inr b ↦
          let taken : found ≡ hit = ground arith in
          subst (IsTable tables) taken (Holds-get (IsTable tables) cand found d g h)
    ]
  ]

  resolve-IsTable :
      (schema : Schema) (col table hit : Text)
      → Holds (IsTable tables) (keys schema)
      → resolve_referenced_table col table schema ≡ some hit
      → IsTable tables hit
  unfolding resolve_referenced_table
  resolve-IsTable schema col table hit h e =
      let stem = drop_end 3 (lower col) in
      first_hit-IsTable table hit (name_candidates stem ++ singular_forms stem) _
        (by_lower-AreTables (keys schema) [] h tt) (else_case _ _ hit e)

  module _ (schema : Schema) (all_tables : Holds (IsTable tables) (keys schema)) where
    add_named-IsRelated :
        (table : Text) (columns : List Text) (graph : Graph)
        → IsTable tables table
        → IsRelated tables graph
        → IsRelated tables (add_named schema table columns graph)
    unfolding add_named
    add_named-IsRelated table [] graph h r = r
    add_named-IsRelated table (col ∷ columns) graph h r = add_named-IsRelated table columns _ h (
        option-IsRelated tables (resolve_referenced_table col table schema) graph _ r (λ ref e.
          default-IsRelated tables table ref col
            (or_text (primary_key_of (get_or ref [] schema) ref) col) graph h
            (resolve-IsTable schema col table ref all_tables e) r))

    pub add_all_named-IsRelated :
        (left : Schema) (graph : Graph)
        → Holds (IsTable tables) (keys left)
        → IsRelated tables graph
        → IsRelated tables (add_all_named schema left graph)
    unfolding add_all_named
    add_all_named-IsRelated [] graph h r = r
    add_all_named-IsRelated ((table, columns) ∷ rest) graph h r =
        add_all_named-IsRelated rest _ h.1 (add_named-IsRelated table columns graph h.0 r)
