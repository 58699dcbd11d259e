-- ===== src/Sql.antt =====
-- dbbuddy_core/sql and the part of dbbuddy_core/dialects that it calls: from a plan to SQL text.
pub mod Dialect
pub mod Value
pub mod Operators
pub mod Plan
pub mod Identifiers
pub mod Conditions
pub mod Clauses
pub mod Compiler
pub mod Quoting
pub mod Placeholders
pub mod Masking
pub mod Kept
mod Examples
