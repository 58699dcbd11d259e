-- ===== src/Joins/Built.antt =====
-- Each step of `build_relationship_graph` keeps the graph well formed and the same from both ends.
pub mod Link
mod Declared
mod Named
mod Keyed
use dbbuddy.Base.{
  ◌≡◌, ◌≢◌, refl, sym, ap, ◌∙◌, subst, Bool, true, false, if◌then◌else◌, ◌&&◌, ◌||◌, Option, none,
  some, Option-cases, List, [], ◌∷◌, ◌++◌, map, Text, same, same_iff, lower, any, Holds,
  Holds-append, arith, Bool-cases, inl, inr,
}
use dbbuddy.Base.Equality.{text_eq}
use dbbuddy.Base.Distinct.{Distinct, is_in}
use dbbuddy.Base.Dict.{get, put, keys, get_or, or_default, Holds-put, Holds-get, Holds-get_or}
use dbbuddy.Joins.Graph.{JoinKeys, Neighbours, Graph, neighbours}
use dbbuddy.Joins.Names.{
  drop_end, Schema, by_lower, first_hit, name_candidates, singular_forms, resolve_referenced_table,
  primary_key_of,
}
use dbbuddy.Joins.WellFormed.{IsGraph, AreTables}
use dbbuddy.Joins.Build.{
  ForeignKey, plain, has_pair, with_pair, write_edge, add_edge, default_edge, add_foreign_keys,
  add_declared, or_text, add_named, add_all_named, PrimaryKeys, owners, single, add_keyed_column,
  add_keyed_columns, add_all_keyed, add_primary_key_edges, bare, build_relationship_graph,
}
use dbbuddy.Joins.Related.{
  swap, mirror, mirrored, IsMirrored, AreMirrors, write_edge-IsGraph, linked, link-IsMirrored,
}
use dbbuddy.Joins.Built.Link.{IsRelated}
use dbbuddy.Joins.Built.Declared.{add_declared-IsRelated}
use dbbuddy.Joins.Built.Named.{add_all_named-IsRelated}
use dbbuddy.Joins.Built.Keyed.{owners-Owned, add_all_keyed-IsRelated}

keys_bare : (schema : Schema) → keys (bare schema) ≡ keys schema
keys_bare [] = refl
keys_bare (e ∷ schema) = ap (λ ts. e.0 ∷ ts) (keys_bare schema)

weaken :
    (t : Text) (ts us : List Text)
    → Holds (λ u. is_in u ts ≡ true) us
    → Holds (λ u. is_in u (t ∷ ts) ≡ true) us
weaken t ts [] h = h
weaken t ts (u ∷ us) h = (ground (arith, h.0), weaken t ts us h.1)

own_tables : (ts : List Text) → Holds (λ u. is_in u ts ≡ true) ts
own_tables [] = tt
own_tables (t ∷ ts) = (ground (arith, same_iff t t), weaken t ts ts (own_tables ts))

bare-Holds :
    (tables : List Text) (schema : Schema) → Holds (λ e. AreTables tables e.1) (bare schema)
bare-Holds tables [] = tt
bare-Holds tables (e ∷ schema) = ((tt, tt), bare-Holds tables schema)

bare_neighbours : (t : Text) (schema : Schema) → neighbours t (bare schema) ≡ []
unfolding get
bare_neighbours t [] = refl
bare_neighbours t (e ∷ schema) = ground (arith, bare_neighbours t schema)

bare-IsRelated : (schema : Schema) → Distinct (keys schema) → IsRelated (keys schema) (bare schema)
unfolding get
bare-IsRelated schema d = record {
  same_tables = keys_bare schema;
  is_graph = record {
    tables = rw (keys_bare schema) d;
    neighbours = bare-Holds (keys (bare schema)) schema;
  };
  is_mirrored = λ t u a. rw (bare_neighbours t schema, bare_neighbours u schema) refl;
}

-- Where the schema names every table once, and whatever keys are declared, the graph has the tables
-- of the schema and each once, a table's neighbours are tables and each is there once, and
-- between two different tables both ends have the same join keys, alternates included, with
-- their columns the other way round.
pub build_relationship_graph-IsRelated :
    (schema : Schema) (fks : List (Text × List ForeignKey)) (pks : PrimaryKeys)
    → Distinct (keys schema)
    → IsRelated (keys schema) (build_relationship_graph schema fks pks)
unfolding build_relationship_graph add_primary_key_edges
build_relationship_graph-IsRelated schema [] pks d =
    let own = own_tables (keys schema) in
    let r =
      add_all_named-IsRelated (keys schema) schema own schema (bare schema) own
        (bare-IsRelated schema d) in
    add_all_keyed-IsRelated (keys schema) pks _ (owners-Owned (keys schema) pks _ [] r tt) schema _
      own r
build_relationship_graph-IsRelated schema (fk ∷ fks) pks d =
    let own = own_tables (keys schema) in
    let r =
      add_declared-IsRelated (keys schema) (fk ∷ fks) (bare schema) (bare-IsRelated schema d) in
    add_all_keyed-IsRelated (keys schema) pks _ (owners-Owned (keys schema) pks _ [] r tt) schema _
      own r
