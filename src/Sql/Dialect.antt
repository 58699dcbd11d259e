-- ===== src/Sql/Dialect.antt =====
-- dbbuddy_core/dialects: the engines, what the compiler asks of a dialect, and the registry.
use dbbuddy.Base.{
  ℕ, Bool, true, false, Option, none, some, [], ◌∷◌, ◌++◌, ◌==◌, ◌||◌, if◌then◌else◌, Text, codes,
  same, empty, lower, strip, member,
}

pub data Engine : Type 0 where
  mysql postgresql sqlserver : Engine

pub data Folding : Type 0 where
  preserves to_lower to_upper : Folding

-- The flags that the compiler reads.
pub record Capabilities : Type 0 where
  pub supports_ilike : Bool
  pub identifier_quote_char : ℕ
  pub unquoted_identifier_case : Folding

pub record Dialect : Type 0 where
  pub engine_name : Text
  pub capabilities : Capabilities

abbrev pub dialect_of : Engine → Dialect
dialect_of mysql = record {
  engine_name = codes "mysql";
  capabilities = record {
    supports_ilike = false;
    identifier_quote_char = b'`';
    unquoted_identifier_case = preserves;
  };
}
dialect_of postgresql = record {
  engine_name = codes "postgresql";
  capabilities = record {
    supports_ilike = true;
    identifier_quote_char = 34;
    unquoted_identifier_case = to_lower;
  };
}
dialect_of sqlserver = record {
  engine_name = codes "sqlserver";
  capabilities = record {
    supports_ilike = false;
    identifier_quote_char = 34;
    unquoted_identifier_case = preserves;
  };
}

-- `name.replace(q, q + q)`.
unfoldable pub double : ℕ → Text → Text
double q [] = []
double q (c ∷ t) = if c == q then q ∷ q ∷ double q t else c ∷ double q t

unfoldable pub quote_identifier : Dialect → Text → Text
unfolding double
quote_identifier d name =
    let q = d.capabilities.identifier_quote_char in q ∷ (double q name ++ q ∷ [])

unfoldable pub render_ilike : Dialect → Text → Text → Text
render_ilike d column rhs =
    if d.capabilities.supports_ilike
    then column ++ (codes " ILIKE " ++ rhs)
    else codes "LOWER(" ++ (column ++ (codes ") LIKE LOWER(" ++ (rhs ++ codes ")")))

-- The canonical names, then the shorthands.
unfoldable pub normalize : Text → Option Engine
unfolding lower strip same
normalize value =
    let name = strip (lower value) in
    if same name (codes "mysql")
    then some mysql
    else if same name (codes "postgresql") || same name (codes "postgres")
    then some postgresql
    else if member name (
        codes "sqlserver"
        ∷ codes "mssql"
        ∷ codes "sql server"
        ∷ codes "sql_server"
        ∷ codes "microsoft sql server"
        ∷ [])
    then some sqlserver
    else none

-- `none` where the source raises: an unknown engine, or one whose driver cannot be imported.
unfoldable pub get_dialect : (Engine → Bool) → Text → Option Dialect
unfolding normalize
get_dialect installed engine = elim (normalize (if empty engine then codes "mysql" else engine)) [
  | none ↦ none
  | some e ↦ if installed e then some (dialect_of e) else none
]
