-- ===== src/Sql/Plan.antt =====
-- The execution plan that the compiler takes: the dictionaries that dbbuddy_core/sql/compiler.py
-- reads with `get`, as records. An empty text is a missing or blank entry, which the code does not
-- tell apart; where it does, the field is an `Option`.
use dbbuddy.Base.{ℕ, Option, List, Text}
use dbbuddy.Sql.Value.{Operand}

pub record SelectItem : Type 0 where
  pub table : Text
  pub column : Text
  pub alias : Text
  pub aggregation : Text

-- A join of the relationship graph, or one with its condition written out.
pub data Join : Type 0 where
  graph_join : (left_table right_table left_key right_key : Text) → Join
  named_join : (table on join_type : Text) → Join

pub record GroupItem : Type 0 where
  pub table : Text
  pub column : Text

pub record HavingItem : Type 0 where
  pub aggregation : Text
  pub table : Text
  pub column : Text
  pub operator : Text
  pub value : Operand

-- `aggregation` is `none` where the key is missing.
pub record OrderItem : Type 0 where
  pub table : Text
  pub column : Text
  pub aggregation : Option Text
  pub direction : Text

-- `by_aggregation` is the dictionary with a `type` and no `column`, with its direction if it has the
-- key.
pub data OrderBy : Type 0 where
  unordered : OrderBy
  by_aggregation : Option Text → OrderBy
  by_item : OrderItem → OrderBy
  by_items : List OrderItem → OrderBy

pub record Aggregation : Type 0 where
  pub function : Text
  pub table : Text
  pub column : Text

-- What `int(limit)` makes of the entry.
pub data Limit : Type 0 where
  absent invalid negative : Limit
  rows : ℕ → Limit

pub record Body : Type 0 where
  pub select : List SelectItem
  pub base_table : Text
  pub joins : List Join
  pub group_by : List GroupItem
  pub having : List HavingItem
  pub order_by : OrderBy
  pub aggregation : Option Aggregation
  pub limit : Limit

-- One entry of `where`, apart from its subquery.
pub record Fields : Type 0 where
  pub table : Text
  pub column : Text
  pub operator : Option Text
  pub value : Option Operand
  pub values : Option Operand
  pub column_ref : Option Text
  pub quantifier : Text
  pub comparator : Option Text

mutual
  pub data Plan : Type 0 where
    plan : Body → Specs → Plan

  pub data Specs : Type 0 where
    nil : Specs
    cons : Spec → Specs → Specs

  pub data Spec : Type 0 where
    spec : Fields → Subquery → Spec

  -- `no_plan` is anything but a dictionary with entries.
  pub data Subquery : Type 0 where
    no_plan : Subquery
    subplan : Plan → Subquery
