-- ===== src/Joins/Examples.antt =====
-- Tests of the relations and the joins.
use dbbuddy.Base.{some, [], ◌∷◌, Text, codes, ◌≡◌, refl}
use dbbuddy.Joins.Names.{Schema, resolve_referenced_table, primary_key_of}
use dbbuddy.Joins.Graph.{Graph, resolve_joins, determine_base_table}
use dbbuddy.Joins.Build.{ForeignKey, build_relationship_graph}
use dbbuddy.Base.{List, true, arith, lower, same, ◌++◌}
use dbbuddy.Base.Equality.{text_eq}
use dbbuddy.Base.Dict.{keys}
use dbbuddy.Base.Distinct.{Distinct, is_in}
use dbbuddy.Joins.Graph.{Edge, Join, find_join_path}
use dbbuddy.Joins.WellFormed.{IsGraph}
use dbbuddy.Joins.Chain.{IsShortest}
use dbbuddy.Joins.Path.{find_join_path-IsShortest}
use dbbuddy.Joins.Built.{build_relationship_graph-IsRelated}
use dbbuddy.Joins.Built.Link.{IsRelated}
use dbbuddy.Joins.Resolve.{IsJoining, IsReachable, resolve_joins-IsJoining}
use dbbuddy.Joins.Connected.{scope_after, AreConnected}
use dbbuddy.Joins.Plan.{
  Plan, tables_referenced_by_plan, prune_unused_joins, reconcile_joins, drop_unreachable_filters,
}
use dbbuddy.Joins.Prune.{rights, AreNeeded, referenced_by, prune_unused_joins_lem}
use dbbuddy.Joins.BaseTable.{determine_base_table_unordered}
use dbbuddy.Base.{◌↔◌}
use dbbuddy.Joins.Reconcile.{reconcile_joins_lem}

abbrev users : Text
users = codes "users"

abbrev orders : Text
orders = codes "orders"

abbrev categories : Text
categories = codes "categories"

abbrev schema : Schema
schema =
    (users, codes "id" ∷ codes "name" ∷ [])
    ∷ (orders, codes "id" ∷ codes "user_id" ∷ codes "category_id" ∷ [])
    ∷ (categories, codes "id" ∷ [])
    ∷ []

abbrev graph : Graph
unfolding build_relationship_graph
graph = build_relationship_graph schema [] []

category_target : resolve_referenced_table (codes "Category_id") orders schema ≡ some categories
unfolding resolve_referenced_table
category_target = refl

key_of_patients :
    primary_key_of (codes "name" ∷ codes "Patient_id" ∷ []) (codes "patients")
    ≡ some (codes "Patient_id")
unfolding primary_key_of
key_of_patients = refl

two_hops :
    resolve_joins graph users (users ∷ categories ∷ [])
    ≡ some (
        record {
          left_table = users;
          right_table = orders;
          left_key = codes "id";
          right_key = codes "user_id";
        }
        ∷ record {
          left_table = orders;
          right_table = categories;
          left_key = codes "category_id";
          right_key = codes "id";
        }
        ∷ [])
unfolding resolve_joins build_relationship_graph
two_hops = refl

base_is_orders : determine_base_table (users ∷ orders ∷ categories ∷ []) graph ≡ some orders
unfolding determine_base_table build_relationship_graph
base_is_orders = refl

schema-Distinct : Distinct (keys schema)
schema-Distinct = ground arith

graph-IsGraph : IsGraph graph
unfolding build_relationship_graph
graph-IsGraph = (build_relationship_graph-IsRelated schema [] [] schema-Distinct).is_graph

-- Two foreign keys lead from the orders to the users.
abbrev foreign_keys : List (Text × List ForeignKey)
foreign_keys =
    (
      orders,
      record { col = codes "user_id"; ref_table = users; ref_col = codes "id" }
          ∷ record { col = codes "category_id"; ref_table = users; ref_col = codes "id" }
          ∷ [],
    )
    ∷ []

find_join_path-IsShortest_example :
    (path : List Edge) × (find_join_path graph users categories ≡ some path)
    × IsShortest graph users categories path
find_join_path-IsShortest_example = find_join_path-IsShortest graph users categories graph-IsGraph

build_relationship_graph-IsRelated_example :
    IsRelated
      (keys schema)
      (build_relationship_graph schema foreign_keys ((users, codes "id" ∷ []) ∷ []))
build_relationship_graph-IsRelated_example =
    build_relationship_graph-IsRelated schema foreign_keys ((users, codes "id" ∷ []) ∷ [])
      schema-Distinct

resolve_joins-IsJoining_example :
    (joins : List Join) × (resolve_joins graph users (users ∷ categories ∷ []) ≡ some joins)
    × IsJoining graph users (users ∷ categories ∷ []) joins
resolve_joins-IsJoining_example =
    resolve_joins-IsJoining graph users graph-IsGraph (users ∷ categories ∷ [])

abbrev first_join : Join
first_join = record {
  left_table = users;
  right_table = orders;
  left_key = codes "id";
  right_key = codes "user_id";
}

abbrev second_join : Join
second_join = record {
  left_table = orders;
  right_table = categories;
  left_key = codes "category_id";
  right_key = codes "id";
}

-- A plan over the users that selects from the orders.
abbrev plan : Plan
plan = record {
  base_table = users;
  joins = first_join ∷ second_join ∷ first_join ∷ [];
  select = record { table = orders; column = codes "id" } ∷ [];
  columns = [];
  where_items = record { table = []; column = codes "Users.name" } ∷ [];
  group_by = [];
  order_by = [];
  having = [];
}

pruned : (prune_unused_joins plan).joins ≡ first_join ∷ []
unfolding prune_unused_joins same
pruned = refl

plan-AreConnected : AreConnected (lower plan.base_table ∷ []) plan.joins
unfolding lower same
plan-AreConnected = (refl, (refl, (refl, tt)))

prune_unused_joins_example :
    AreConnected (lower users ∷ []) (prune_unused_joins plan).joins
    × Distinct (rights (prune_unused_joins plan).joins)
    × ((t : Text)
        → is_in t (referenced_by plan) ≡ true
        → is_in t (rights plan.joins) ≡ true
        → is_in t (rights (prune_unused_joins plan).joins) ≡ true)
    × AreNeeded (referenced_by plan) (prune_unused_joins plan).joins
unfolding lower
prune_unused_joins_example =
    prune_unused_joins_lem plan (refl, (refl, (refl, tt))) plan-AreConnected

-- The plan before any join is resolved, with a filter on the categories.
abbrev bare_plan : Plan
bare_plan = record plan {
  joins = [];
  where_items = record { table = categories; column = codes "id" } ∷ [];
}

reconcile_joins_example :
    (joins : List Join) × (more : List Join) × (reconcile_joins graph bare_plan
      ≡ some (record bare_plan { joins = joins }))
    × (joins ≡ bare_plan.joins ++ more)
    × AreConnected (lower users ∷ []) joins
    × ((t : Text)
        → is_in t (tables_referenced_by_plan bare_plan []) ≡ true
        → IsReachable graph users t
        → is_in (lower t) (scope_after (lower users ∷ []) joins) ≡ true)
reconcile_joins_example = reconcile_joins_lem graph bare_plan graph-IsGraph refl tt

reconciled :
    reconcile_joins graph bare_plan
    ≡ some (record bare_plan { joins = first_join ∷ second_join ∷ [] })
unfolding reconcile_joins build_relationship_graph
reconciled = refl

nothing_dropped : drop_unreachable_filters plan ≡ plan
unfolding drop_unreachable_filters same
nothing_dropped = refl

same_members :
    (t : Text)
    → (is_in t (users ∷ orders ∷ []) ≡ true) ↔ (is_in t (orders ∷ users ∷ users ∷ []) ≡ true)
same_members t = (λ h. ground (arith, h), λ h. ground (arith, h))

determine_base_table_unordered_example :
    determine_base_table (users ∷ orders ∷ []) graph
    ≡ determine_base_table (orders ∷ users ∷ users ∷ []) graph
determine_base_table_unordered_example =
    determine_base_table_unordered graph (users ∷ orders ∷ []) (orders ∷ users ∷ users ∷ [])
      same_members
