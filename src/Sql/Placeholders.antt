-- ===== src/Sql/Placeholders.antt =====
-- The placeholders of a parameterized statement against the values to bind.
pub mod Clean
pub mod Operands
pub mod Conditions
pub mod Clauses
pub mod Ordering
pub mod Statements
