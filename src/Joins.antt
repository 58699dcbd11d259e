-- ===== src/Joins.antt =====
-- Which tables a statement joins: dbbuddy_core/relationship_graph.py, planner_utils.py beside it, and
-- the passes of query_planner.py over the joins. Names are texts, and a graph is a dictionary from a
-- table to its neighbours with the join keys.
pub mod Graph
pub mod Names
pub mod Build
pub mod Related
pub mod Built
pub mod Search
pub mod WellFormed
pub mod Weight
pub mod Chain
pub mod Level
pub mod Path
pub mod Plan
pub mod Connected
pub mod BaseTable
pub mod Prune
pub mod Resolve
pub mod Reconcile
mod Examples
