-- ===== src/Base/Equality.antt =====
-- What a key of a dictionary must have: Python's `==` on it, and that this is equality.
use Prim.Native.String.{String}
use mathlib.Core.Path.{◌≡◌}
use mathlib.Core.Logic.{◌↔◌}
use mathlib.Core.Bool.{Bool, true}
use text.Mathlib.Text.{◌==◌ as ◌=ₛ◌}
use text.Mathlib.TextEquality.{eq_iff}
use dbbuddy.Base.Strings.{Text, same, same_iff}

pub record Eq {ℓ} (A : Type ℓ) : Type ℓ where
  pub beq : A → A → Bool
  pub beq_iff : (a b : A) → (beq a b ≡ true) ↔ (a ≡ b)

instance abbrev pub string_eq : Eq String
string_eq = record { beq = ◌=ₛ◌; beq_iff = eq_iff }

instance abbrev pub text_eq : Eq Text
text_eq = record { beq = same; beq_iff = same_iff }
