-- ===== src/Sql/Clauses.antt =====
-- The clauses of a statement, as `compile_sql` of dbbuddy_core/sql/compiler.py builds them.
use dbbuddy.Base.{
  ℕ, zero, suc, Bool, true, false, not, Option, none, some, List, [], ◌∷◌, ◌++◌, ◌==◌, ◌||◌, ◌&&◌,
  any, if◌then◌else◌, Text, codes, same, empty, lower, upper, strip, strip_left, member,
  split_words, join, decimal,
}
use dbbuddy.Sql.Dialect.{Dialect}
use dbbuddy.Sql.Value.{null, str, other, Operand, one, many, unordered}
use dbbuddy.Sql.Operators.{Fragment, plain}
use dbbuddy.Sql.Plan.{
  SelectItem, Join, graph_join, named_join, GroupItem, HavingItem, OrderItem, OrderBy,
  by_aggregation, by_item, by_items, Aggregation, Limit, rows,
}
use dbbuddy.Sql.Plan
use dbbuddy.Sql.Identifiers.{quote, quote_ref, ref, is_word}

abbrev pub call : Text → Text → Text
call function argument = function ++ b'(' ∷ (argument ++ codes ")")

unfoldable pub aggregated : Text → Text → Text
aggregated aggregation column = if empty aggregation then column else call aggregation column

unfoldable pub aliased : Option Dialect → Text → Text → Text → Text
unfolding quote same
aliased dialect alias column expression =
    if empty alias || same alias column
    then expression
    else expression ++ (codes " AS " ++ quote dialect alias)

unfoldable pub select_part : Option Dialect → SelectItem → Text
unfolding aggregated aliased ref same
select_part dialect item =
    if same item.column (codes "*") || empty item.column
    then codes "*"
    else aliased dialect item.alias item.column
        (aggregated item.aggregation (ref dialect item.table item.column))

unfoldable pub select_parts : Option Dialect → List SelectItem → List Text
unfolding select_part
select_parts dialect [] = []
select_parts dialect (item ∷ items) = select_part dialect item ∷ select_parts dialect items

unfoldable pub select_clause : Option Dialect → List SelectItem → Text
unfolding select_parts join
select_clause dialect [] = codes "*"
select_clause dialect (item ∷ items) = join (codes ", ") (select_parts dialect (item ∷ items))

unfoldable pub normalize_join_type : Text → Text
unfolding strip upper member split_words
normalize_join_type join_type =
    let text = upper (strip join_type) in
    if empty text
    then codes "JOIN"
    else if member (codes "JOIN") (split_words [] text)
    then text
    else text ++ codes " JOIN"

-- `none` for an invalid specification, which is skipped.
unfoldable pub join_part : Option Dialect → Join → Option Text
unfolding quote ref normalize_join_type
join_part dialect (graph_join left_table right_table left_key right_key) =
    if empty left_table || empty right_table || empty left_key || empty right_key
    then none
    else some (
        codes "JOIN "
        ++ (quote dialect right_table
            ++ (codes " ON "
                ++ (ref dialect left_table left_key
                    ++ (codes " = " ++ ref dialect right_table right_key)))))
join_part dialect (named_join table on join_type) =
    if empty table || empty on
    then none
    else some (
        normalize_join_type join_type
        ++ (codes " " ++ (quote dialect table ++ (codes " ON " ++ on))))

unfoldable pub join_parts : Option Dialect → List Join → List Text
unfolding join_part
join_parts dialect [] = []
join_parts dialect (j ∷ js) =
    let rest = join_parts dialect js in
    elim (join_part dialect j) [ none ↦ rest | some part ↦ part ∷ rest ]

unfoldable pub group_parts : Option Dialect → List GroupItem → List Text
unfolding ref
group_parts dialect [] = []
group_parts dialect (g ∷ gs) =
    let rest = group_parts dialect gs in
    if empty g.column then rest else ref dialect g.table g.column ∷ rest

abbrev pub is_none : Operand → Bool
is_none (one null) = true
is_none _ = false

-- `f"{value}"`.
unfoldable pub shown : Operand → Text
shown (one null) = codes "None"
shown (one (str s)) = s
shown (one (other s)) = s
shown (many s vs) = s
shown (unordered s vs) = s

unfoldable pub having_fragment : Option Dialect → Bool → HavingItem → Fragment
unfolding ref shown
having_fragment dialect parameterize h =
    let left = call h.aggregation (ref dialect h.table h.column) in
    if parameterize
    then record {
      sql = codes "HAVING " ++ (left ++ (codes " " ++ (h.operator ++ codes " %s")));
      params = h.value ∷ [];
    }
    else plain
        (codes "HAVING " ++ (left ++ (codes " " ++ (h.operator ++ (codes " " ++ shown h.value)))))

-- The first entry only, and only if it is complete.
unfoldable pub having_clause : Option Dialect → Bool → List HavingItem → Fragment
unfolding having_fragment
having_clause dialect parameterize [] = plain []
having_clause dialect parameterize (h ∷ hs) =
    if empty h.aggregation || empty h.table || empty h.column || empty h.operator || is_none h.value
    then plain []
    else having_fragment dialect parameterize h

-- The longest prefix of characters that pass, and the rest.
unfoldable pub span : (ℕ → Bool) → Text → Text × Text
span p [] = ([], [])
span p (c ∷ t) = let (l, r) = span p t in if p c then (c ∷ l, r) else ([], c ∷ t)

-- `\)\s*$` on what follows the argument.
unfoldable pub call_end : Text → Bool
unfolding strip_left
call_end [] = false
call_end (c ∷ t) = c == b')' && empty (strip_left t)

unfoldable pub call_argument : Text → Text → Option (Text × Text)
unfolding span call_end strip_left is_word
call_argument function t =
    let (inner, after) = span (λ c. is_word c || c == b'.') t in
    if empty function || empty inner || not (call_end (strip_left after))
    then none
    else some (function, inner)

unfoldable pub call_open : Text → Text → Option (Text × Text)
unfolding call_argument strip_left
call_open function [] = none
call_open function (c ∷ t) = if c == b'(' then call_argument function (strip_left t) else none

-- `re.match(r"\s*(\w+)\s*\(\s*([\w.]+)\s*\)\s*$", col)`: the function and its argument.
unfoldable pub parse_call : Text → Option (Text × Text)
unfolding span call_open strip_left is_word
parse_call col =
    let (function, after) = span is_word (strip_left col) in call_open function (strip_left after)

unfoldable pub direction_of : Text → Text
unfolding upper same member
direction_of direction =
    let text = upper direction in
    if member text (codes "ASC" ∷ codes "DESC" ∷ []) then text else codes "ASC"

abbrev pub order_by_text : Text → Text → Text
order_by_text expression direction = codes "ORDER BY " ++ (expression ++ (codes " " ++ direction))

-- The aggregation of the plan, if it names its column.
unfoldable pub complete : Option Aggregation → Option Aggregation
complete none = none
complete (some a) = if empty a.table || empty a.column then none else some a

unfoldable pub order_call :
    Option Dialect → Text → Option (Text × Text) → Option Aggregation → Text → Text
unfolding ref quote_ref
order_call dialect col none none direction = order_by_text col direction
order_call dialect col (some (function, inner)) none direction =
    order_by_text (call function (quote_ref dialect inner)) direction
order_call dialect col none (some a) direction =
    order_by_text (call a.function (ref dialect a.table a.column)) direction
order_call dialect col (some (function, inner)) (some a) direction =
    order_by_text (call function (ref dialect a.table a.column)) direction

-- What stands after the last dot, in lower case.
unfoldable pub bare_name : Text → Text
unfolding lower
bare_name [] = []
bare_name (c ∷ t) =
    let rest = bare_name t in
    if any (λ d. d == b'.') (c ∷ t)
    then (if c == b'.' && not (any (λ d. d == b'.') t) then lower t else rest)
    else lower (c ∷ t)

unfoldable pub names_measure : List GroupItem → Text → Aggregation → Bool
unfolding bare_name lower same
names_measure groups column a =
    let bare = bare_name column in
    same column (a.table ++ b'.' ∷ a.column)
    || same bare (lower a.column)
    || not (any (λ g. same (lower g.column) bare) groups)

unfoldable pub order_plain :
    Option Dialect → List GroupItem → Text → Option Aggregation → Text → Text
unfolding names_measure complete ref
order_plain dialect groups column aggregation direction = elim (complete aggregation) [
  | none ↦ []
  | some a ↦
      if names_measure groups column a && not (empty a.function)
      then order_by_text (call a.function (ref dialect a.table a.column)) direction
      else []
]

-- The branches on the shape of the entry; the empty text where none makes a clause.
unfoldable pub order_main :
    Option Dialect → List GroupItem → Option Aggregation → OrderItem → Text → Text
unfolding order_call parse_call order_plain ref complete
order_main dialect groups aggregation o direction = elim o.aggregation [
  | some function ↦
      if empty o.table || empty o.column || empty function
      then []
      else order_by_text (call function (ref dialect o.table o.column)) direction
  | none ↦
      if any (λ c. c == b'(') o.column
      then order_call dialect o.column (parse_call o.column) (complete aggregation) direction
      else order_plain dialect groups o.column aggregation direction
]

unfoldable pub order_item : Option Dialect → List GroupItem → Option Aggregation → OrderItem → Text
unfolding order_main direction_of ref
order_item dialect groups aggregation o =
    let direction = direction_of o.direction in
    let clause = order_main dialect groups aggregation o direction in
    if empty clause && not (empty o.column) && not (any (λ c. c == b'(') o.column)
    then order_by_text (ref dialect o.table o.column) direction
    else clause

abbrev pub rebuilt : Option Aggregation → Text → List OrderItem
rebuilt none direction =
    record { table = []; column = []; aggregation = none; direction = direction } ∷ []
rebuilt (some a) direction =
    record {
      table = a.table;
      column = a.column;
      aggregation = some a.function;
      direction = direction;
    }
    ∷ []

-- `order_by` as a list; the default direction of the aggregation form is descending.
unfoldable pub order_items : Option Aggregation → OrderBy → List OrderItem
order_items aggregation Plan.OrderBy.unordered = []
order_items aggregation (by_aggregation direction) =
    rebuilt aggregation (elim direction [ none ↦ codes "DESC" | some t ↦ t ])
order_items aggregation (by_item o) = o ∷ []
order_items aggregation (by_items os) = os

unfoldable pub order_clause :
    Option Dialect → List GroupItem → Option Aggregation → List OrderItem → Text
unfolding order_item
order_clause dialect groups aggregation [] = []
order_clause dialect groups aggregation (o ∷ os) = order_item dialect groups aggregation o

unfoldable pub is_sqlserver : Text → Bool
unfolding lower strip member
is_sqlserver engine =
    member (strip (lower engine))
      (codes "sqlserver" ∷ codes "mssql" ∷ codes "sql server" ∷ codes "sql_server" ∷ [])

unfoldable pub limit_rows : Limit → ℕ
limit_rows (rows n) = n
limit_rows _ = 0

unfoldable pub top_clause : Text → ℕ → Text
unfolding is_sqlserver decimal
top_clause engine zero = []
top_clause engine (suc n) =
    if is_sqlserver engine then codes "TOP " ++ (decimal (suc n) ++ codes " ") else []

unfoldable pub limit_clause : Text → ℕ → Text
unfolding is_sqlserver decimal
limit_clause engine zero = []
limit_clause engine (suc n) = if is_sqlserver engine then [] else codes "LIMIT " ++ decimal (suc n)
