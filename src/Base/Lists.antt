-- ===== src/Base/Lists.antt =====
-- Lists measured by native numbers, and a membership that computes.
use Prim.Native.Nat.{ℕ, suc, ◌+◌, ◌≤◌}
use mathlib.Core.Path.{◌≡◌, refl, ap}
use mathlib.Core.Bool.{Bool, true, false, ◌&&◌, ◌||◌}
use mathlib.Core.List.{List, [], ◌∷◌, ◌++◌, map}
use mathlib.Core.Logic.{inl, inr}
use native.Mathlib.Omega.{arith}
use dbbuddy.Base.Tests.{Bool-cases}

module _ {ℓ} {A : Type ℓ} where
  abbrev pub length : List A → ℕ
  length [] = 0
  length (x ∷ xs) = suc (length xs)

  pub length-append : (xs ys : List A) → length (xs ++ ys) ≡ length xs + length ys
  length-append [] ys = omega arith
  length-append (x ∷ xs) ys = omega (arith, length-append xs ys)

  -- `x` is one of the elements.
  abbrev pub Holds {κ} : (A → Type κ) → List A → Type κ
  Holds P [] = Unit
  Holds P (x ∷ xs) = P x × Holds P xs

  pub Holds-append {κ} :
      (P : A → Type κ) (xs ys : List A) → Holds P xs → Holds P ys → Holds P (xs ++ ys)
  Holds-append P [] ys h k = k
  Holds-append P (x ∷ xs) ys h k = (h.0, Holds-append P xs ys h.1 k)

  abbrev pub any : (A → Bool) → List A → Bool
  any p [] = false
  any p (x ∷ xs) = p x || any p xs

  abbrev pub all : (A → Bool) → List A → Bool
  all p [] = true
  all p (x ∷ xs) = p x && all p xs

  abbrev pub keep : (A → Bool) → List A → List A
  keep p [] = []
  keep p (x ∷ xs) = let rest = keep p xs in elim (p x) [ true ↦ x ∷ rest | false ↦ rest ]

  pub length-keep-le : (p : A → Bool) (xs : List A) → length (keep p xs) ≤ length xs
  length-keep-le p [] = omega arith
  length-keep-le p (x ∷ xs) = ground (arith, length-keep-le p xs)

module _ {ℓ κ} {A : Type ℓ} {B : Type κ} where
  pub length-map : (f : A → B) (xs : List A) → length (map f xs) ≡ length xs
  length-map f [] = refl
  length-map f (x ∷ xs) = ap suc (length-map f xs)

module _ {ℓ} {A : Type ℓ} (p : A → Bool) where
  pub keep-true : (x : A) (xs : List A) → p x ≡ true → keep p (x ∷ xs) ≡ x ∷ keep p xs
  keep-true x xs h = ground arith

  pub keep-false : (x : A) (xs : List A) → p x ≡ false → keep p (x ∷ xs) ≡ keep p xs
  keep-false x xs h = ground arith

module _ {ℓ κ μ} {A : Type ℓ} {B : Type κ} (P : B → Type μ) (f : A → B) (p : A → Bool) where
  pub Holds-map-keep : (xs : List A) → Holds P (map f xs) → Holds P (map f (keep p xs))
  Holds-map-keep [] h = h
  Holds-map-keep (x ∷ xs) h = elim (Bool-cases (p x)) [
    | inl e ↦ rw (keep-true p x xs e) (h.0, Holds-map-keep xs h.1)
    | inr e ↦ rw (keep-false p x xs e) (Holds-map-keep xs h.1)
  ]

module _ {ℓ κ} {A : Type ℓ} (P : A → Type κ) (p : A → Bool) where
  pub Holds-keep : (xs : List A) → Holds P xs → Holds P (keep p xs)
  Holds-keep [] h = h
  Holds-keep (x ∷ xs) h = elim (Bool-cases (p x)) [
    | inl e ↦ rw (keep-true p x xs e) (h.0, Holds-keep xs h.1)
    | inr e ↦ rw (keep-false p x xs e) (Holds-keep xs h.1)
  ]
