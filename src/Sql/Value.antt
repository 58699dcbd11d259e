-- ===== src/Sql/Value.antt =====
-- Bound values, and dbbuddy_core/sql/renderer.py.
use dbbuddy.Base.{List, [], ◌∷◌, ◌++◌, Text, codes}
use dbbuddy.Sql.Dialect.{double}

-- A Python scalar. Numbers, dates and Booleans come with what `str` makes of them.
pub data Value : Type 0 where
  null : Value
  str : Text → Value
  other : Text → Value

-- The right-hand side of a condition: a scalar, a list or tuple, or a set, with its `str`.
pub data Operand : Type 0 where
  one : Value → Operand
  many : Text → List Value → Operand
  unordered : Text → List Value → Operand

unfoldable pub render_literal : Value → Text
unfolding double
render_literal null = codes "None"
render_literal (str s) = b'\'' ∷ (double b'\'' s ++ b'\'' ∷ [])
render_literal (other shown) = shown

-- `render_literal` where a whole collection is the value.
unfoldable pub render_operand : Operand → Text
unfolding render_literal
render_operand (one v) = render_literal v
render_operand (many shown vs) = shown
render_operand (unordered shown vs) = shown
