-- ===== src/Joins/Connected.antt =====
-- What makes a plan's joins fit to compile: each joins a table to one that is there already.
use dbbuddy.Base.{◌≡◌, true, false, List, [], ◌∷◌, ◌++◌, Text, empty, lower, Holds, arith}
use dbbuddy.Base.Equality.{text_eq}
use dbbuddy.Base.Distinct.{is_in}
use dbbuddy.Joins.Graph.{Join}

abbrev pub left_of : Join → Text
left_of join = lower join.left_table

abbrev pub right_of : Join → Text
right_of join = lower join.right_table

-- Each join's left table is in scope: it was there at the start or an earlier join brought it in.
abbrev pub AreConnected : (scope : List Text) → List Join → Type 0
AreConnected scope [] = Unit
AreConnected scope (join ∷ joins) =
    (is_in (left_of join) scope ≡ true) × AreConnected (right_of join ∷ scope) joins

abbrev pub HaveTables : List Join → Type 0
HaveTables = Holds (λ join. empty (right_of join) ≡ false)

abbrev pub Within : List Text → List Text → Type 0
Within ts us = (t : Text) → is_in t ts ≡ true → is_in t us ≡ true

pub Within-cons : (x : Text) (ts us : List Text) → Within ts us → Within (x ∷ ts) (x ∷ us)
Within-cons x ts us h t k = ground (arith, h t)

pub AreConnected-Within :
    (scope wider : List Text) (joins : List Join)
    → Within scope wider
    → AreConnected scope joins
    → AreConnected wider joins
AreConnected-Within scope wider [] h c = tt
AreConnected-Within scope wider (join ∷ joins) h c = (
  h (left_of join) c.0,
  AreConnected-Within (right_of join ∷ scope) (right_of join ∷ wider) joins
      (Within-cons (right_of join) scope wider h) c.1,
)

-- The tables in scope after the joins.
abbrev pub scope_after : List Text → List Join → List Text
scope_after scope [] = scope
scope_after scope (join ∷ joins) = scope_after (right_of join ∷ scope) joins

pub AreConnected-append :
    (scope : List Text) (joins more : List Join)
    → AreConnected scope joins
    → AreConnected (scope_after scope joins) more
    → AreConnected scope (joins ++ more)
AreConnected-append scope [] more h k = k
AreConnected-append scope (join ∷ joins) more h k =
    (h.0, AreConnected-append (right_of join ∷ scope) joins more h.1 k)

pub scope_after-wider :
    (scope : List Text) (joins : List Join) → Within scope (scope_after scope joins)
scope_after-wider scope [] t h = h
scope_after-wider scope (join ∷ joins) t h =
    scope_after-wider (right_of join ∷ scope) joins t (ground (arith, h))
