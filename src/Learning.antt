-- ===== src/Learning.antt =====
-- dbbuddy_core/learning_engine.py: which schema target a user's term has meant, counted per
-- database. The log calls have no part in the model but for the last one of `add_mapping`, whose
-- lookup can raise. A memory file that cannot be read counts as a blank one.
pub mod Mappings
pub mod Room
pub mod Scopes
mod Examples
use Prim.Native.String.{◌++◌ as ◌++ₛ◌}
use dbbuddy.Base.{
  ℕ, zero, suc, ◌+◌, Bool, true, false, not, ltb, leb, if◌then◌else◌, ◌&&◌, ◌||◌, Option, none,
  some, List, [], ◌∷◌, ◌++◌, map, length, String, Text, codes, empty, lower, strip, split_words,
  member, same, ◌=ₛ◌,
}
use dbbuddy.Base.Equality.{string_eq}
use dbbuddy.Base.Dict.{Dict, get, put, remove, get_or}

abbrev pub max_mappings_per_term : ℕ
max_mappings_per_term = 3

-- How often a term has meant each target.
abbrev pub Counts : Type 0
Counts = Dict ℕ

pub record Memory : Type 0 where
  pub mappings : Dict Counts
  pub column_usage : Counts
  pub table_usage : Counts

abbrev pub blank : Memory
blank = record { mappings = []; column_usage = []; table_usage = [] }

unfoldable pub increment : String → Counts → Counts
increment target counts = put target (get_or target 0 counts + 1) counts

-- `min(counts, key=counts.get)` from a first candidate: the first of the least.
unfoldable pub lowest : String → ℕ → Counts → String
lowest best n [] = best
lowest best n ((target, m) ∷ counts) =
    let kept = lowest best n counts in
    let changed = lowest target m counts in if ltb m n then changed else kept

-- `max(counts, key=counts.get)` from a first candidate, with its count: the first of the greatest.
unfoldable pub highest : String → ℕ → Counts → String × ℕ
highest best n [] = (best, n)
highest best n ((target, m) ∷ counts) =
    let kept = highest best n counts in
    let changed = highest target m counts in if ltb n m then changed else kept

unfoldable pub prune : Counts → Counts
unfolding lowest
prune [] = []
prune ((target, n) ∷ counts) =
    if ltb max_mappings_per_term (length ((target, n) ∷ counts))
    then remove (lowest target n counts) ((target, n) ∷ counts)
    else (target, n) ∷ counts

-- The memory afterwards, and the count that is logged, `none` where looking it up is a KeyError.
unfoldable pub add_mapping : Memory → (term target : String) → Memory × Option ℕ
unfolding increment prune
add_mapping memory term target =
    let counts = prune (increment target (get_or term [] memory.mappings)) in
    (record memory { mappings = put term counts memory.mappings }, get target counts)

unfoldable pub best_of : Counts → ℕ → Option String
unfolding highest
best_of [] threshold = none
best_of ((target, n) ∷ counts) threshold =
    let best = highest target n counts in if ltb best.1 threshold then none else some best.0

unfoldable pub get_best_mapping : String → Memory → (threshold : ℕ) → Option String
unfolding best_of
get_best_mapping term memory threshold = best_of (get_or term [] memory.mappings) threshold

unfoldable pub update_column_usage : Memory → String → Memory
unfolding increment
update_column_usage memory column = record memory {
  column_usage = increment column memory.column_usage;
}

unfoldable pub update_table_usage : Memory → String → Memory
unfolding increment
update_table_usage memory table = record memory { table_usage = increment table memory.table_usage }

abbrev pub stopwords : List Text
stopwords = map codes (
    "the" ∷ "is" ∷ "of" ∷ "by" ∷ "with" ∷ "and" ∷ "or" ∷ "in" ∷ "on" ∷ "at" ∷ "to" ∷ "for" ∷ "from"
    ∷ "as" ∷ "a" ∷ "an" ∷ "top" ∷ "most" ∷ "highest" ∷ "lowest" ∷ "show" ∷ "get" ∷ "list" ∷ "find"
    ∷ "what" ∷ "how" ∷ "many" ∷ "much" ∷ "more" ∷ "than" ∷ "average" ∷ "count" ∷ "per" ∷ "total"
    ∷ "user" ∷ "users" ∷ [])

unfoldable pub meaningful : List Text → List Text
unfolding member
meaningful [] = []
meaningful (word ∷ words) =
    let rest = meaningful words in
    if ltb (length word) 3 || member word stopwords then rest else word ∷ rest

unfoldable pub extract_keywords : Text → List Text
unfolding meaningful lower split_words
extract_keywords query =
    let tokens = meaningful (split_words [] (lower query)) in
    let tokens' =
      if member (codes "revenue") tokens then tokens ++ codes "payments" ∷ [] else tokens in
    if member (codes "person") tokens' then tokens' ++ codes "users" ∷ [] else tokens'

-- What the engine reads of an intent: its tables, and the table and column of its aggregation.
pub record Intent : Type 0 where
  pub tables : List String
  pub aggregation : Option (Option String × Option String)

unfoldable pub should_learn : Intent → (success : Bool) → Bool
should_learn intent success =
    let has_aggregation : Bool = elim intent.aggregation [ none ↦ false | some a ↦ true ] in
    let has_tables : Bool = elim intent.tables [ [] ↦ false | t ∷ ts ↦ true ] in
    success && (has_aggregation && has_tables)

-- `DBBUDDY_DISABLE_LEARNING`.
unfoldable pub learning_enabled : Text → Bool
unfolding strip lower member
learning_enabled value =
    not (member (lower (strip value)) (map codes ("1" ∷ "true" ∷ "yes" ∷ "on" ∷ [])))

abbrev pub measure_columns : List Text
measure_columns = map codes ("amount" ∷ "price" ∷ "value" ∷ "total" ∷ "cost" ∷ "revenue" ∷ [])

abbrev pub measure_terms : List Text
measure_terms = map codes (
    "revenue" ∷ "sales" ∷ "income" ∷ "earnings" ∷ "profit" ∷ "payments" ∷ "amount" ∷ "value"
    ∷ "cost" ∷ "total" ∷ "price" ∷ [])

-- The loop over the keywords; `none` where `add_mapping` raises.
unfoldable pub learn_terms : (target : String) → List String → Memory → Option Memory
unfolding add_mapping
learn_terms target [] memory = some memory
learn_terms target (term ∷ terms) memory =
    let learned = learn_terms target terms (add_mapping memory term target).0 in
    let skipped = learn_terms target terms memory in
    if member (lower (codes term)) measure_terms
    then (elim (add_mapping memory term target).1 [ none ↦ none | some n ↦ learned ])
    else skipped

-- The memory file of the present version: the scopes.
abbrev pub File : Type 0
File = Dict Memory

unfoldable pub load_memory : (scope : String) → File → Memory
load_memory scope file = get_or scope blank file

-- `scope or memory.get("scope") or DEFAULT_SCOPE`.
unfoldable pub saved_scope : (memory_scope scope : String) → String
saved_scope memory_scope scope =
    if scope =ₛ "" then (if memory_scope =ₛ "" then "_unscoped" else memory_scope) else scope

-- `memory_scope` is the entry `scope` of the memory, which `load_memory` sets to the scope it is
-- asked for.
unfoldable pub save_memory : Memory → (memory_scope scope : String) → File → File
unfolding saved_scope
save_memory memory memory_scope scope file = put (saved_scope memory_scope scope) memory file

-- The memory that `update_memory` saves, if it comes to that; `some none` where it raises.
unfoldable pub learnt :
    (keywords : List String) → Option String × Option String → Memory → Option (Option Memory)
unfolding learn_terms update_column_usage update_table_usage
learnt keywords (some table, some column) memory =
    let target = table ++ₛ ("." ++ₛ column) in
    if empty (codes table) || empty (codes column)
    then none
    else (if not (member (lower (codes column)) measure_columns)
        then none
        else some (elim (learn_terms target keywords memory) [
          | none ↦ none
          | some m ↦ some (update_table_usage (update_column_usage m target) table)
        ]))
learnt keywords _ memory = none

-- What becomes of the file, and whether a KeyError comes out.
unfoldable pub write_back : (scope : String) → File → Option (Option Memory) → File × Bool
unfolding save_memory
write_back scope file none = (file, false)
write_back scope file (some none) = (file, true)
write_back scope file (some (some m)) = (save_memory m scope scope file, false)

-- `keywords` are those that `extract_keywords` finds in the query.
unfoldable pub update_memory :
    (disable : Text) (keywords : List String) (success : Bool) (scope : String)
    → Intent
    → File
    → File × Bool
unfolding learning_enabled should_learn learnt load_memory write_back
update_memory disable keywords success scope intent file =
    if not (learning_enabled disable && should_learn intent success)
    then (file, false)
    else (elim intent.aggregation [
      | none ↦ (file, false)
      | some a ↦ write_back scope file (learnt keywords a (load_memory scope file))
    ])
