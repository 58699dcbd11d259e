-- ===== src/Joins/Built/Keyed.antt =====
-- The edges from declared primary keys.
use dbbuddy.Base.{
  ◌≡◌, subst, ◌||◌, some, List, [], ◌∷◌, ◌++◌, map, Text, same, lower, Holds, Holds-append, arith,
}
use dbbuddy.Base.Equality.{text_eq}
use dbbuddy.Base.Distinct.{is_in}
use dbbuddy.Base.Dict.{keys, get_or, Holds-put, Holds-get_or}
use dbbuddy.Joins.Graph.{Graph}
use dbbuddy.Joins.Names.{Schema}
use dbbuddy.Joins.Build.{
  PrimaryKeys, owners, single, add_keyed_column, add_keyed_columns, add_all_keyed,
}
use dbbuddy.Joins.Built.Link.{
  IsRelated, if-IsRelated, option-IsRelated, if-Holds, IsTable, still-IsTable, default-IsRelated,
}

module _ (tables : List Text) where
  abbrev pub Owned : List (Text × List Text) → Type 0
  Owned = Holds (λ e. Holds (IsTable tables) e.1)

  pub owners-Owned :
      (pks : PrimaryKeys) (graph : Graph) (found : List (Text × List Text))
      → IsRelated tables graph
      → Owned found
      → Owned (owners pks graph found)
  unfolding owners
  owners-Owned [] graph found r h = h
  owners-Owned ((table, []) ∷ rest) graph found r h = owners-Owned rest graph found r h
  owners-Owned ((table, k ∷ l ∷ ks) ∷ rest) graph found r h = owners-Owned rest graph found r h
  owners-Owned ((table, key ∷ []) ∷ rest) graph found r h = owners-Owned rest graph _ r (
      if-Holds (λ e. Holds (IsTable tables) e.1) (is_in table (keys graph)) _ found
        (λ b.
          Holds-put (λ e. Holds (IsTable tables) e.1) (lower key)
            (get_or (lower key) [] found ++ table ∷ []) found
            (Holds-append (IsTable tables) (get_or (lower key) [] found) (table ∷ [])
              (Holds-get_or (Holds (IsTable tables)) (lower key) [] found tt h)
              (still-IsTable tables graph table r b, tt))
            h)
        h)

  single-IsTable :
      (ts : List Text) (t : Text)
      → Holds (IsTable tables) ts
      → single ts ≡ some t
      → IsTable tables t
  single-IsTable [] t h e = cc
  single-IsTable (u ∷ []) t h e =
      let found : u ≡ t = ground arith in subst (IsTable tables) found h.0
  single-IsTable (u ∷ v ∷ ts) t h e = cc

  module _ (pks : PrimaryKeys) (owned : List (Text × List Text)) (all_tables : Owned owned) where
    first-IsRelated :
        (cols : List Text) (x : Graph) (y : Text → Graph)
        → IsRelated tables x
        → ((c : Text) → IsRelated tables (y c))
        → IsRelated tables (elim cols [ [] ↦ x | c ∷ cs ↦ y c ])
    first-IsRelated [] x y h k = h
    first-IsRelated (c ∷ cs) x y h k = k c

    add_keyed_column-IsRelated :
        (table col : Text) (graph : Graph)
        → IsTable tables table
        → IsRelated tables graph
        → IsRelated tables (add_keyed_column pks owned table col graph)
    unfolding add_keyed_column
    add_keyed_column-IsRelated table col graph h r =
        option-IsRelated tables (single (get_or (lower col) [] owned)) graph _ r (λ parent e.
          if-IsRelated tables
            (same parent table || is_in (lower col) (map lower (get_or table [] pks))) graph _
            (λ b. r)
            (λ b. first-IsRelated (get_or parent [] pks) graph _ r (λ parent_col.
              default-IsRelated tables table parent col parent_col graph h
                (single-IsTable (get_or (lower col) [] owned) parent
                  (Holds-get_or (Holds (IsTable tables)) (lower col) [] owned tt all_tables) e)
                r)))

    add_keyed_columns-IsRelated :
        (table : Text) (columns : List Text) (graph : Graph)
        → IsTable tables table
        → IsRelated tables graph
        → IsRelated tables (add_keyed_columns pks owned table columns graph)
    unfolding add_keyed_columns
    add_keyed_columns-IsRelated table [] graph h r = r
    add_keyed_columns-IsRelated table (col ∷ columns) graph h r =
        add_keyed_columns-IsRelated table columns _ h
          (add_keyed_column-IsRelated table col graph h r)

    pub add_all_keyed-IsRelated :
        (left : Schema) (graph : Graph)
        → Holds (IsTable tables) (keys left)
        → IsRelated tables graph
        → IsRelated tables (add_all_keyed pks owned left graph)
    unfolding add_all_keyed
    add_all_keyed-IsRelated [] graph h r = r
    add_all_keyed-IsRelated ((table, columns) ∷ rest) graph h r =
        add_all_keyed-IsRelated rest _ h.1 (add_keyed_columns-IsRelated table columns graph h.0 r)
