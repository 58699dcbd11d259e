-- ===== src/Joins/Built/Declared.antt =====
-- The edges of the declared foreign keys.
use dbbuddy.Base.{List, [], ◌∷◌, Text}
use dbbuddy.Base.Equality.{text_eq}
use dbbuddy.Base.Distinct.{is_in}
use dbbuddy.Base.Dict.{keys}
use dbbuddy.Joins.Graph.{Graph}
use dbbuddy.Joins.Build.{ForeignKey, with_pair, add_edge, add_foreign_keys, add_declared}
use dbbuddy.Joins.Built.Link.{
  IsRelated, link-IsRelated, if-IsRelated, IsTable, still-IsTable, with_pair-AreMirrors,
}

module _ (tables : List Text) where
  add_foreign_keys-IsRelated :
      (table : Text) (fks : List ForeignKey) (graph : Graph)
      → IsTable tables table
      → IsRelated tables graph
      → IsRelated tables (add_foreign_keys table fks graph)
  unfolding add_foreign_keys add_edge
  add_foreign_keys-IsRelated table [] graph h r = r
  add_foreign_keys-IsRelated table (fk ∷ fks) graph h r = add_foreign_keys-IsRelated table fks _ h (
      if-IsRelated tables (is_in fk.ref_table (keys graph)) _ graph
        (λ b.
          link-IsRelated (with_pair fk.col fk.ref_col) (with_pair fk.ref_col fk.col) table
            fk.ref_table tables graph (with_pair-AreMirrors fk.col fk.ref_col) h
            (still-IsTable tables graph fk.ref_table r b) r)
        (λ b. r))

  pub add_declared-IsRelated :
      (fks : List (Text × List ForeignKey)) (graph : Graph)
      → IsRelated tables graph
      → IsRelated tables (add_declared fks graph)
  unfolding add_declared
  add_declared-IsRelated [] graph r = r
  add_declared-IsRelated ((table, fks) ∷ rest) graph r = add_declared-IsRelated rest _ (
      if-IsRelated tables (is_in table (keys graph)) _ graph
        (λ b. add_foreign_keys-IsRelated table fks graph (still-IsTable tables graph table r b) r)
        (λ b. r))
