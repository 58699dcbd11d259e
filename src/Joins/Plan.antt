-- ===== src/Joins/Plan.antt =====
-- dbbuddy_core/query_planner.py: the tables that a plan refers to, and the joins that it ends up with.
-- The empty text stands for a name that is missing. A join names its table in `right_table`, as every
-- join that the planner makes does, and clauses hold only records.
use dbbuddy.Base.{
  ℕ, Bool, true, false, not, if◌then◌else◌, ◌&&◌, ◌||◌, Option, none, some, List, [], ◌∷◌, ◌++◌,
  map, keep, Text, same, empty, lower, strip, leb, ◌==◌, any, all,
}
use dbbuddy.Base.Equality.{text_eq}
use dbbuddy.Base.Distinct.{is_in}
use dbbuddy.Base.Dict.{keys}
use dbbuddy.Joins.Graph.{Graph, neighbours, Edge, Join, join_of, find_join_path}

-- One entry of a clause: `{"table": …, "column": …}`.
pub record Item : Type 0 where
  pub table : Text
  pub column : Text

-- What the steps below read and write of `execution_plan`; a clause that is one entry is a list of one.
pub record Plan : Type 0 where
  pub base_table : Text
  pub joins : List Join
  pub select : List Item
  pub columns : List Item
  pub where_items : List Item
  pub group_by : List Item
  pub order_by : List Item
  pub having : List Item

abbrev is_letter : ℕ → Bool
is_letter c = leb b'a' c && leb c b'z' || leb b'A' c && leb c b'Z' || c == b'_'

-- `text.isidentifier()`.
unfoldable pub is_identifier : Text → Bool
is_identifier [] = false
is_identifier (c ∷ t) = is_letter c && all (λ d. is_letter d || leb b'0' d && leb d b'9') t

-- `text.split(".", 1)[0]`, where there is a dot.
unfoldable pub before_dot : Text → Option Text
before_dot [] = none
before_dot (c ∷ t) =
    if c == b'.' then some [] else (elim (before_dot t) [ none ↦ none | some p ↦ some (c ∷ p) ])

unfoldable pub prefix_of : Item → Text
unfolding before_dot is_identifier strip
prefix_of item = elim (before_dot item.column) [
  | none ↦ []
  | some p ↦ if is_identifier (strip p) then strip p else []
]

-- `add(name)`.
unfoldable pub add_name : Text → List Text → List Text
unfolding lower
add_name name ordered =
    if empty name
    then ordered
    else (if is_in (lower name) (map lower ordered) then ordered else ordered ++ name ∷ [])

unfoldable pub add_names : List Text → List Text → List Text
unfolding add_name
add_names [] ordered = ordered
add_names (name ∷ names) ordered = add_names names (add_name name ordered)

unfoldable pub add_items : List Item → List Text → List Text
unfolding add_name prefix_of
add_items [] ordered = ordered
add_items (item ∷ items) ordered =
    add_items items (add_name (prefix_of item) (add_name item.table ordered))

unfoldable pub tables_referenced_by_plan : Plan → (named_tables : List Text) → List Text
unfolding add_names add_items
tables_referenced_by_plan plan named_tables =
    add_items
      (plan.select
        ++ (plan.columns
            ++ (plan.where_items ++ (plan.group_by ++ (plan.order_by ++ plan.having)))))
      (add_names named_tables [])

unfoldable pub dedupe_joins : (seen_tables : List Text) → List Join → List Join
unfolding lower
dedupe_joins seen_tables [] = []
dedupe_joins seen_tables (join ∷ joins) =
    let right = lower join.right_table in
    let skipped = dedupe_joins seen_tables joins in
    let kept = dedupe_joins (right ∷ seen_tables) joins in
    if empty right || is_in right seen_tables then skipped else join ∷ kept

-- The walk from the last join to the first: the joins kept, and the tables referenced by then.
unfoldable pub prune : (referenced : List Text) → List Join → List Join × List Text
unfolding lower
prune referenced [] = ([], referenced)
prune referenced (join ∷ joins) =
    let (kept, needed) = prune referenced joins in
    let left = lower join.left_table in
    if is_in (lower join.right_table) needed
    then (join ∷ kept, if empty left then needed else left ∷ needed)
    else (kept, needed)

unfoldable pub prune_unused_joins : Plan → Plan
unfolding dedupe_joins prune lower tables_referenced_by_plan
prune_unused_joins plan =
    let referenced = lower plan.base_table ∷ map lower (tables_referenced_by_plan plan []) in
    record plan { joins = (prune referenced (dedupe_joins [] plan.joins)).0 }

abbrev pub names_if : Text → List Text
names_if name = if empty name then [] else name ∷ []

unfoldable pub scope_of : List Join → List Text
unfolding lower
scope_of [] = []
scope_of (join ∷ joins) =
    names_if (lower join.right_table) ++ (names_if (lower join.left_table) ++ scope_of joins)

unfoldable pub join_scope : Plan → List Text
unfolding scope_of lower
join_scope plan = names_if (lower plan.base_table) ++ scope_of plan.joins

-- The edges of one path, as far as they lead to tables that are not in scope yet.
unfoldable pub add_path :
    List Edge → (joins : List Join) (scope : List Text) → List Join × List Text
unfolding lower
add_path [] joins scope = (joins, scope)
add_path (e ∷ path) joins scope =
    let right = lower e.right in
    let inside = is_in right scope in
    add_path path (if inside then joins else joins ++ join_of e ∷ [])
      (if inside then scope else right ∷ scope)

unfoldable pub add_paths :
    Graph → (base : Text) → List Text → (joins : List Join) (scope : List Text) → Option (List Join)
unfolding find_join_path add_path
add_paths graph base [] joins scope = some joins
add_paths graph base (table ∷ missing) joins scope = elim (find_join_path graph base table) [
  | none ↦ none
  | some path ↦ let more = add_path path joins scope in add_paths graph base missing more.0 more.1
]

-- `none` where a path search runs out of fuel.
unfoldable pub reconcile_joins : Graph → Plan → Option Plan
unfolding tables_referenced_by_plan join_scope add_paths lower
reconcile_joins graph plan =
    let scope = join_scope plan in
    let missing = keep (λ t. not (is_in (lower t) scope)) (tables_referenced_by_plan plan []) in
    if empty plan.base_table
    then some plan
    else (elim (add_paths graph plan.base_table missing plan.joins scope) [
      | none ↦ none
      | some joins ↦ some (record plan { joins = joins })
    ])

-- Whether a path search finds a path that is not empty.
unfoldable pub is_joined : Graph → Text → Text → Bool
unfolding find_join_path
is_joined graph start target = elim (find_join_path graph start target) [
  | none ↦ false
  | some path ↦ elim path [ [] ↦ false | _ ∷ _ ↦ true ]
]

unfoldable pub reaches_others : Graph → (candidate : Text) → List Text → Bool
unfolding is_joined lower
reaches_others graph candidate referenced =
    all (λ t. is_in (lower t) (keys (neighbours candidate graph)) || is_joined graph candidate t)
      (keep (λ t. not (same (lower t) (lower candidate))) referenced)

unfoldable pub first_base : Graph → (referenced candidates : List Text) → Option Text
unfolding reaches_others
first_base graph referenced [] = none
first_base graph referenced (candidate ∷ candidates) =
    let rest = first_base graph referenced candidates in
    if reaches_others graph candidate referenced then some candidate else rest

unfoldable pub rebase_on_referenced_table : Graph → Plan → Plan
unfolding tables_referenced_by_plan is_joined first_base lower
rebase_on_referenced_table graph plan =
    let base = plan.base_table in
    let referenced = tables_referenced_by_plan plan [] in
    if empty base
      || any (λ t. same (lower t) (lower base)) referenced
      || all (is_joined graph base) referenced
    then plan
    else (elim (first_base graph referenced referenced) [
      | none ↦ plan
      | some candidate ↦ record plan { base_table = candidate; joins = [] }
    ])

-- The table that an entry of a clause is read from, as far as it says.
unfoldable pub table_of : Item → Text
unfolding prefix_of
table_of item = if empty item.table then prefix_of item else item.table

unfoldable pub out_of_scope : List Text → Item → Bool
unfolding table_of lower
out_of_scope scope item =
    let table = table_of item in not (empty table) && not (is_in (lower table) scope)

unfoldable pub drop_unreachable_filters : Plan → Plan
unfolding join_scope out_of_scope
drop_unreachable_filters plan =
    let scope = join_scope plan in
    let kept = keep (λ i. not (out_of_scope scope i)) in
    elim scope [
      | [] ↦ plan
      | _ ∷ _ ↦ record plan {
        where_items = kept plan.where_items;
        having = kept plan.having;
        order_by = kept plan.order_by;
      }
    ]
