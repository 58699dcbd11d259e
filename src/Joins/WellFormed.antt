-- ===== src/Joins/WellFormed.antt =====
-- Graphs as they are built: every table once, and tables as neighbours.
use dbbuddy.Base.{◌≡◌, true, List, [], Text, Holds}
use dbbuddy.Base.Equality.{text_eq}
use dbbuddy.Base.Distinct.{Distinct, is_in}
use dbbuddy.Base.Dict.{Holds-get_or, keys}
use dbbuddy.Joins.Graph.{Neighbours, Graph, neighbours}

-- The neighbours of one table: each once, and each a table of the graph.
abbrev pub AreTables : List Text → Neighbours → Type 0
AreTables tables ns = Distinct (keys ns) × Holds (λ n. is_in n.0 tables ≡ true) ns

-- A graph as its builder makes it: every table once, with neighbours that are tables.
pub record IsGraph (graph : Graph) : Type 0 where
  pub tables : Distinct (keys graph)
  pub neighbours : Holds (λ e. AreTables (keys graph) e.1) graph

pub neighbours-AreTables :
    (graph : Graph) (table : Text) → IsGraph graph → AreTables (keys graph) (neighbours table graph)
neighbours-AreTables graph table h =
    Holds-get_or (AreTables (keys graph)) table [] graph (tt, tt) h.neighbours
