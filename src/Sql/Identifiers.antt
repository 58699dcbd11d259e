-- ===== src/Sql/Identifiers.antt =====
-- Identifiers in dbbuddy_core/sql/compiler.py: when they are quoted, and how.
use dbbuddy.Base.{
  ℕ, Bool, true, false, not, Option, none, some, List, [], ◌∷◌, ◌++◌, ◌==◌, ◌||◌, ◌&&◌, leb,
  if◌then◌else◌, Text, codes, same, empty, lower, upper, member, all, strip,
}
use dbbuddy.Sql.Dialect.{Dialect, Folding, to_lower, to_upper, preserves, double, quote_identifier}

unfoldable pub is_letter : ℕ → Bool
is_letter c = leb b'A' c && leb c b'Z' || leb b'a' c && leb c b'z' || c == b'_'

unfoldable pub is_word : ℕ → Bool
unfolding is_letter
is_word c = is_letter c || leb b'0' c && leb c b'9'

-- `$` also matches before a final line feed.
word_end : Text → Bool
unfolding is_word
word_end [] = true
word_end (c ∷ t) = is_word c && word_end t || c == 10 && empty t

-- `_PLAIN_IDENTIFIER.match`.
unfoldable pub plain_identifier : Text → Bool
unfolding is_letter word_end
plain_identifier [] = false
plain_identifier (c ∷ t) = is_letter c && word_end t

-- `str.isidentifier`.
unfoldable pub is_identifier : Text → Bool
unfolding is_letter is_word
is_identifier [] = false
is_identifier (c ∷ t) = is_letter c && all is_word t

abbrev pub reserved_identifiers : List Text
reserved_identifiers =
    codes "order"
    ∷ codes "group"
    ∷ codes "select"
    ∷ codes "from"
    ∷ codes "where"
    ∷ codes "table"
    ∷ codes "key"
    ∷ codes "value"
    ∷ codes "index"
    ∷ codes "desc"
    ∷ codes "asc"
    ∷ codes "when"
    ∷ codes "case"
    ∷ codes "check"
    ∷ codes "column"
    ∷ codes "primary"
    ∷ codes "foreign"
    ∷ codes "default"
    ∷ codes "join"
    ∷ codes "left"
    ∷ codes "right"
    ∷ codes "inner"
    ∷ codes "outer"
    ∷ codes "union"
    ∷ codes "all"
    ∷ codes "distinct"
    ∷ codes "limit"
    ∷ codes "offset"
    ∷ codes "having"
    ∷ codes "by"
    ∷ codes "and"
    ∷ codes "or"
    ∷ codes "not"
    ∷ codes "null"
    ∷ codes "as"
    ∷ codes "in"
    ∷ codes "is"
    ∷ codes "like"
    ∷ codes "between"
    ∷ codes "exists"
    ∷ codes "into"
    ∷ codes "values"
    ∷ codes "set"
    ∷ codes "user"
    ∷ codes "range"
    ∷ codes "rank"
    ∷ codes "row"
    ∷ codes "rows"
    ∷ codes "start"
    ∷ codes "end"
    ∷ codes "level"
    ∷ codes "size"
    ∷ codes "type"
    ∷ codes "status"
    ∷ codes "comment"
    ∷ codes "match"
    ∷ codes "natural"
    ∷ codes "using"
    ∷ codes "cast"
    ∷ codes "current"
    ∷ codes "to"
    ∷ codes "on"
    ∷ codes "for"
    ∷ codes "with"
    ∷ codes "if"
    ∷ codes "then"
    ∷ codes "else"
    ∷ codes "cross"
    ∷ codes "full"
    ∷ codes "unique"
    ∷ codes "references"
    ∷ codes "add"
    ∷ codes "create"
    ∷ codes "drop"
    ∷ codes "delete"
    ∷ codes "insert"
    ∷ codes "update"
    ∷ codes "alter"
    ∷ codes "grant"
    ∷ codes "revoke"
    ∷ codes "constraint"
    ∷ codes "view"
    ∷ codes "database"
    ∷ codes "schema"
    ∷ codes "trigger"
    ∷ codes "procedure"
    ∷ codes "function"
    ∷ codes "return"
    ∷ codes "begin"
    ∷ codes "commit"
    ∷ codes "rollback"
    ∷ codes "transaction"
    ∷ codes "lock"
    ∷ codes "precision"
    ∷ codes "position"
    ∷ codes "both"
    ∷ codes "leading"
    ∷ codes "trailing"
    ∷ codes "escape"
    ∷ codes "collate"
    ∷ codes "some"
    ∷ codes "any"
    ∷ codes "over"
    ∷ codes "partition"
    ∷ codes "window"
    ∷ codes "filter"
    ∷ codes "within"
    ∷ codes "percent"
    ∷ codes "except"
    ∷ codes "intersect"
    ∷ []

unfoldable pub is_reserved : Text → Bool
unfolding member
is_reserved name = member name reserved_identifiers

folds_away : Folding → Text → Bool
unfolding lower upper same
folds_away preserves name = false
folds_away to_lower name = not (same name (lower name))
folds_away to_upper name = not (same name (upper name))

folding_of : Option Dialect → Folding
folding_of none = preserves
folding_of (some d) = d.capabilities.unquoted_identifier_case

unfoldable pub needs_quoting : Option Dialect → Text → Bool
unfolding plain_identifier is_reserved folds_away folding_of lower
needs_quoting dialect [] = false
needs_quoting dialect (c ∷ name) =
    if not (plain_identifier (c ∷ name))
    then true
    else if is_reserved (lower (c ∷ name))
    then true
    else folds_away (folding_of dialect) (c ∷ name)

unfoldable pub quoted : Option Dialect → Text → Text
unfolding quote_identifier double
quoted (some d) name = quote_identifier d name
quoted none name = 34 ∷ (double 34 name ++ 34 ∷ [])

unfoldable pub quote : Option Dialect → Text → Text
unfolding needs_quoting quoted
quote dialect name = if needs_quoting dialect name then quoted dialect name else name

-- What stands before and after the first dot.
unfoldable pub partition : Text → Option (Text × Text)
partition [] = none
partition (c ∷ t) =
    let rest = partition t in
    if c == b'.' then some ([], t) else elim rest [ none ↦ none | some (l, r) ↦ some (c ∷ l, r) ]

unfoldable pub quote_parts : Option Dialect → Text → Option (Text × Text) → Text
unfolding quote plain_identifier
quote_parts dialect s none = quote dialect s
quote_parts dialect s (some (left, right)) =
    if plain_identifier left && not (empty right)
    then quote dialect left ++ b'.' ∷ quote dialect right
    else quote dialect s

unfoldable pub quote_ref : Option Dialect → Text → Text
unfolding quote quote_parts partition same
quote_ref dialect s = if same s (codes "*") then s else quote_parts dialect s (partition s)

unfoldable pub ref : Option Dialect → Text → Text → Text
unfolding quote quote_ref
ref dialect [] column = quote_ref dialect column
ref dialect (c ∷ table) column = quote dialect (c ∷ table) ++ b'.' ∷ quote_ref dialect column

-- The table that a dotted column is qualified with, in lower case.
unfoldable pub qualifier_of : Text → List Text
unfolding partition strip is_identifier lower
qualifier_of column = elim (partition column) [
  | none ↦ []
  | some (prefix, rest) ↦ if is_identifier (strip prefix) then lower (strip prefix) ∷ [] else []
]
