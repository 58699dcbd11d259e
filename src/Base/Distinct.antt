-- ===== src/Base/Distinct.antt =====
-- Lists without repeats, and how long one can be.
use Prim.Native.Nat.{suc, ◌≤◌}
use mathlib.Core.Path.{◌≡◌, refl}
use mathlib.Core.Logic.{◌≢◌, inl, inr}
use mathlib.Core.Bool.{Bool, true, not}
use mathlib.Core.List.{List, [], ◌∷◌, ◌++◌, map}
use native.Mathlib.Omega.{arith}
use dbbuddy.Base.Tests.{Bool-cases}
use dbbuddy.Base.Lists.{
  length, Holds, Holds-append, any, keep, keep-true, keep-false, Holds-keep, Holds-map-keep,
}
use dbbuddy.Base.Equality.{Eq}

module _ {ℓ} {A : Type ℓ} where
  abbrev pub Distinct : List A → Type ℓ
  Distinct [] = Unit
  Distinct (x ∷ xs) = Holds (λ y. x ≢ y) xs × Distinct xs

  pub Distinct-keep : (p : A → Bool) (xs : List A) → Distinct xs → Distinct (keep p xs)
  Distinct-keep p [] h = h
  Distinct-keep p (x ∷ xs) h = elim (Bool-cases (p x)) [
    | inl e ↦ rw (keep-true p x xs e) (Holds-keep (λ y. x ≢ y) p xs h.0, Distinct-keep p xs h.1)
    | inr e ↦ rw (keep-false p x xs e) (Distinct-keep p xs h.1)
  ]

module _ {ℓ κ} {A : Type ℓ} {B : Type κ} (f : A → B) (p : A → Bool) where
  pub Distinct-map-keep : (xs : List A) → Distinct (map f xs) → Distinct (map f (keep p xs))
  Distinct-map-keep [] h = h
  Distinct-map-keep (x ∷ xs) h = elim (Bool-cases (p x)) [
    | inl e ↦
        rw (keep-true p x xs e) (Holds-map-keep (λ u. f x ≢ u) f p xs h.0, Distinct-map-keep xs h.1)
    | inr e ↦ rw (keep-false p x xs e) (Distinct-map-keep xs h.1)
  ]

module _ {ℓ} {A : Type ℓ} ⦃e : Eq A⦄ where
  abbrev pub is_in : A → List A → Bool
  is_in x = any (e.beq x)

  pub length-keep-others :
      (x : A) (ys : List A)
      → Holds (λ y. x ≢ y) ys
      → length (keep (λ y. not (e.beq x y)) ys) ≡ length ys
  length-keep-others x [] h = refl
  length-keep-others x (y ∷ ys) h = ground (arith, h.0, e.beq_iff x y, length-keep-others x ys h.1)

  pub length-keep-Distinct :
      (x : A) (ys : List A)
      → Distinct ys
      → length ys ≤ suc (length (keep (λ y. not (e.beq x y)) ys))
  length-keep-Distinct x [] h = omega arith
  length-keep-Distinct x (y ∷ ys) h = elim (Bool-cases (e.beq x y)) [
    | inl b ↦
        let same : x ≡ y = (e.beq_iff x y).0 b in
        ground (arith, length-keep-others x ys (rw same h.0))
    | inr b ↦ ground (arith, length-keep-Distinct x ys h.1)
  ]

  is_in-keep-others :
      (x : A) (xs ys : List A)
      → Holds (λ y. is_in y (x ∷ xs) ≡ true) ys
      → Holds (λ y. is_in y xs ≡ true) (keep (λ y. not (e.beq x y)) ys)
  is_in-keep-others x xs [] h = h
  is_in-keep-others x xs (y ∷ ys) h = elim (Bool-cases (not (e.beq x y))) [
    | inl b ↦
        rw (keep-true (λ y. not (e.beq x y)) y ys b)
          (ground (arith, h.0, b, e.beq_iff x y, e.beq_iff y x), is_in-keep-others x xs ys h.1)
    | inr b ↦ rw (keep-false (λ y. not (e.beq x y)) y ys b) (is_in-keep-others x xs ys h.1)
  ]

  -- Distinct members of a list are no more than its elements.
  pub length-Distinct-le :
      (xs ys : List A) → Distinct ys → Holds (λ y. is_in y xs ≡ true) ys → length ys ≤ length xs
  length-Distinct-le [] [] h k = omega arith
  length-Distinct-le [] (y ∷ ys) h k = cc
  length-Distinct-le (x ∷ xs) ys h k = omega (
    arith,
    length-keep-Distinct x ys h,
    length-Distinct-le xs (keep (λ y. not (e.beq x y)) ys)
        (Distinct-keep (λ y. not (e.beq x y)) ys h) (is_in-keep-others x xs ys k),
  )

module _ {ℓ} {A : Type ℓ} where
  pub Distinct-append-one :
      (xs : List A) (x : A) → Distinct xs → Holds (λ y. y ≢ x) xs → Distinct (xs ++ x ∷ [])
  Distinct-append-one [] x d h = (tt, tt)
  Distinct-append-one (y ∷ xs) x d h =
      (Holds-append (λ z. y ≢ z) xs (x ∷ []) d.0 (h.0, tt), Distinct-append-one xs x d.1 h.1)
