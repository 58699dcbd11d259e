-- ===== src/Joins/Build.antt =====
-- dbbuddy_core/relationship_graph.py: `build_relationship_graph`, from declared foreign keys or from
-- names, and from declared primary keys. Every table that is written to is one of the schema's.
use dbbuddy.Base.{
  Bool, if◌then◌else◌, ◌&&◌, ◌||◌, Option, none, some, List, [], ◌∷◌, ◌++◌, map, Text, same, empty,
  lower, any,
}
use dbbuddy.Base.Equality.{text_eq}
use dbbuddy.Base.Distinct.{is_in}
use dbbuddy.Base.Dict.{get, put, keys, get_or, or_default}
use dbbuddy.Joins.Graph.{JoinKeys, Graph, neighbours}
use dbbuddy.Joins.Names.{Schema, resolve_referenced_table, primary_key_of}

-- `(fk_column, referenced_table, referenced_column)`.
pub record ForeignKey : Type 0 where
  pub col : Text
  pub ref_table : Text
  pub ref_col : Text

abbrev pub plain : Text → Text → JoinKeys
plain col ref_col = record { from_col = col; to_col = ref_col; alternates = [] }

unfoldable pub has_pair : Text → Text → List (Text × Text) → Bool
unfolding same
has_pair col ref_col pairs = any (λ (p : Text × Text). same col p.0 && same ref_col p.1) pairs

-- The keys after one more declared pair: the first stays the default, others become alternates.
unfoldable pub with_pair : Text → Text → Option JoinKeys → JoinKeys
unfolding same has_pair
with_pair col ref_col none = plain col ref_col
with_pair col ref_col (some existing) =
    if same existing.from_col col && same existing.to_col ref_col
    then existing
    else (if has_pair col ref_col existing.alternates
        then existing
        else record existing { alternates = existing.alternates ++ (col, ref_col) ∷ [] })

-- `graph[table][ref] = update(graph[table].get(ref))`.
unfoldable pub write_edge : (Option JoinKeys → JoinKeys) → (table ref : Text) → Graph → Graph
unfolding get put
write_edge update table ref graph =
    let ns = neighbours table graph in put table (put ref (update (get ref ns)) ns) graph

unfoldable pub add_edge : (table ref_table col ref_col : Text) → Graph → Graph
unfolding write_edge with_pair
add_edge table ref_table col ref_col = write_edge (with_pair col ref_col) table ref_table

-- `graph[table].setdefault(ref, (col, ref_col))`.
unfoldable pub default_edge : (table ref_table col ref_col : Text) → Graph → Graph
unfolding write_edge
default_edge table ref_table col ref_col =
    write_edge (or_default (plain col ref_col)) table ref_table

unfoldable pub add_foreign_keys : (table : Text) → List ForeignKey → Graph → Graph
unfolding add_edge
add_foreign_keys table [] graph = graph
add_foreign_keys table (fk ∷ fks) graph = add_foreign_keys table fks (
    if is_in fk.ref_table (keys graph)
    then add_edge fk.ref_table table fk.ref_col fk.col
        (add_edge table fk.ref_table fk.col fk.ref_col graph)
    else graph)

unfoldable pub add_declared : List (Text × List ForeignKey) → Graph → Graph
unfolding add_foreign_keys
add_declared [] graph = graph
add_declared ((table, fks) ∷ rest) graph =
    add_declared rest (if is_in table (keys graph) then add_foreign_keys table fks graph else graph)

-- `found or otherwise`.
abbrev pub or_text : Option Text → Text → Text
or_text found otherwise = elim found [
  | none ↦ otherwise
  | some t ↦ if empty t then otherwise else t
]

unfoldable pub add_named : Schema → (table : Text) → List Text → Graph → Graph
unfolding resolve_referenced_table primary_key_of default_edge
add_named schema table [] graph = graph
add_named schema table (col ∷ columns) graph =
    add_named schema table columns (elim (resolve_referenced_table col table schema) [
      | none ↦ graph
      | some ref ↦
          let ref_col = or_text (primary_key_of (get_or ref [] schema) ref) col in
          default_edge ref table ref_col col (default_edge table ref col ref_col graph)
    ])

unfoldable pub add_all_named : (schema left : Schema) → Graph → Graph
unfolding add_named
add_all_named schema [] graph = graph
add_all_named schema ((table, columns) ∷ rest) graph =
    add_all_named schema rest (add_named schema table columns graph)

abbrev pub PrimaryKeys : Type 0
PrimaryKeys = List (Text × List Text)

-- Which tables have a key of this name as their only one.
unfoldable pub owners : PrimaryKeys → Graph → List (Text × List Text) → List (Text × List Text)
unfolding get put lower
owners [] graph found = found
owners ((table, key ∷ []) ∷ rest) graph found = owners rest graph (
    if is_in table (keys graph)
    then put (lower key) (get_or (lower key) [] found ++ table ∷ []) found
    else found)
owners ((table, ks) ∷ rest) graph found = owners rest graph found

abbrev pub single : List Text → Option Text
single [] = none
single (t ∷ []) = some t
single (t ∷ u ∷ ts) = none

unfoldable pub add_keyed_column :
    PrimaryKeys → List (Text × List Text) → (table col : Text) → Graph → Graph
unfolding get lower same default_edge
add_keyed_column pks owned table col graph = elim (single (get_or (lower col) [] owned)) [
  | none ↦ graph
  | some parent ↦
      if same parent table || is_in (lower col) (map lower (get_or table [] pks))
      then graph
      else (elim (get_or parent [] pks) [
        | [] ↦ graph
        | parent_col ∷ _ ↦
            default_edge parent table parent_col col
              (default_edge table parent col parent_col graph)
      ])
]

unfoldable pub add_keyed_columns :
    PrimaryKeys → List (Text × List Text) → (table : Text) → List Text → Graph → Graph
unfolding add_keyed_column
add_keyed_columns pks owned table [] graph = graph
add_keyed_columns pks owned table (col ∷ columns) graph =
    add_keyed_columns pks owned table columns (add_keyed_column pks owned table col graph)

unfoldable pub add_all_keyed : PrimaryKeys → List (Text × List Text) → Schema → Graph → Graph
unfolding add_keyed_columns
add_all_keyed pks owned [] graph = graph
add_all_keyed pks owned ((table, columns) ∷ rest) graph =
    add_all_keyed pks owned rest (add_keyed_columns pks owned table columns graph)

unfoldable pub add_primary_key_edges : Graph → Schema → PrimaryKeys → Graph
unfolding owners add_all_keyed
add_primary_key_edges graph schema pks = add_all_keyed pks (owners pks graph []) schema graph

abbrev pub bare : Schema → Graph
bare = map (λ (e : Text × List Text). (e.0, []))

unfoldable pub build_relationship_graph :
    Schema → List (Text × List ForeignKey) → PrimaryKeys → Graph
unfolding add_declared add_all_named add_primary_key_edges
build_relationship_graph schema [] pks =
    add_primary_key_edges (add_all_named schema schema (bare schema)) schema pks
build_relationship_graph schema (fk ∷ fks) pks =
    add_primary_key_edges (add_declared (fk ∷ fks) (bare schema)) schema pks
