-- ===== src/Learning/Examples.antt =====
-- A term with three learnt targets, and two databases.
use dbbuddy.Base.{
  inl, ◌≤◌, length, ◌≡◌, ◌≢◌, refl, true, none, some, [], ◌∷◌, String, eq_iff, arith,
}
use Prim.Native.Nat.{max}
use dbbuddy.Base.Equality.{string_eq}
use dbbuddy.Base.Dict.{get, put, remove, get_or}
use dbbuddy.Learning.{
  max_mappings_per_term, Counts, Memory, blank, Intent, add_mapping, get_best_mapping, load_memory,
  update_memory,
}
use dbbuddy.Learning.Mappings.{IsPick, length-add_mapping, get_best_mapping-IsPick}
use dbbuddy.Learning.Room.{add_mapping-counted}
use dbbuddy.Learning.Scopes.{add_mapping-full}

abbrev counts : Counts
counts = ("payments.amount", 5) ∷ ("orders.total", 2) ∷ ("orders.value", 3) ∷ []

abbrev memory : Memory
memory = record { mappings = ("revenue", counts) ∷ []; column_usage = []; table_usage = [] }

learnt_again :
    get "revenue" (add_mapping memory "revenue" "orders.total").0.mappings
    ≡ some (("payments.amount", 5) ∷ ("orders.total", 3) ∷ ("orders.value", 3) ∷ [])
unfolding add_mapping get put remove
learnt_again = refl

length-add_mapping_example :
    length (get_or "revenue" [] (add_mapping memory "revenue" "sales.price").0.mappings)
    ≤ max max_mappings_per_term (length (get_or "revenue" [] memory.mappings))
length-add_mapping_example = length-add_mapping memory "revenue" "sales.price" "revenue"

add_mapping-counted_example :
    ((add_mapping memory "revenue" "orders.total").1 ≡ some 3)
    × (get_or "orders.value" 0
          (get_or "revenue" [] (add_mapping memory "revenue" "orders.total").0.mappings)
        ≡ 3)
unfolding get
add_mapping-counted_example =
    add_mapping-counted memory "revenue" "orders.total" "orders.value" (inl (refl, omega arith))

abbrev cost : String
cost = "cost"

abbrev revenue : String
revenue = "revenue"

other_term : cost ≢ revenue
other_term h = ground (arith, eq_iff cost revenue, h)

picked : get_best_mapping "revenue" memory 2 ≡ some "payments.amount"
unfolding get_best_mapping get
picked = refl

get_best_mapping-IsPick_example :
    IsPick (get_or "revenue" [] memory.mappings) 2 (get_best_mapping "revenue" memory 2)
get_best_mapping-IsPick_example = get_best_mapping-IsPick "revenue" memory 2

found : get "revenue" memory.mappings ≡ some counts
unfolding get
found = refl

new_target : get "sales.price" counts ≡ none
unfolding get
new_target = refl

add_mapping-full_example : (add_mapping memory "revenue" "sales.price").1 ≡ none
add_mapping-full_example =
    add_mapping-full memory "revenue" "sales.price" counts found refl new_target
      (omega arith, (omega arith, (omega arith, tt)))

abbrev intent : Intent
intent = record { tables = "payments" ∷ []; aggregation = some (some "payments", some "amount") }

-- What is learnt without a scope is saved under another, and not found again.
unscoped :
    let file = (update_memory [] ("revenue" ∷ []) true "" intent []).0 in
    (load_memory "" file ≡ blank)
    × (get_best_mapping "revenue" (load_memory "_unscoped" file) 1 ≡ some "payments.amount")
unfolding update_memory load_memory get_best_mapping get put
unscoped = (refl, refl)
