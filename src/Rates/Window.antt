-- ===== src/Rates/Window.antt =====
-- Stamps from the newest to the oldest: those inside the window come first.
use dbbuddy.Base.{
  ℕ, zero, suc, ◌+◌, ◌≤◌, ◌≡◌, refl, sym, List, [], ◌∷◌, keep, length, Holds, arith, Bool-cases,
  inl, inr,
}
use dbbuddy.Rates.{take, inside}

abbrev pub Descending : List ℕ → Type 0
Descending [] = Unit
Descending (x ∷ xs) = Holds (λ y. y ≤ x) xs × Descending xs

abbrev pub AreUpTo : ℕ → List ℕ → Type 0
AreUpTo t = Holds (λ y. y ≤ t)

pub AreUpTo-later : (t now : ℕ) (xs : List ℕ) → t ≤ now → AreUpTo t xs → AreUpTo now xs
AreUpTo-later t now [] l h = tt
AreUpTo-later t now (x ∷ xs) l h = (omega (arith, h.0), AreUpTo-later t now xs l h.1)

pub AreUpTo-take : (t n : ℕ) (xs : List ℕ) → AreUpTo t xs → AreUpTo t (take n xs)
AreUpTo-take t zero xs h = tt
AreUpTo-take t (suc n) [] h = tt
AreUpTo-take t (suc n) (x ∷ xs) h = (h.0, AreUpTo-take t n xs h.1)

pub take-Descending : (n : ℕ) (xs : List ℕ) → Descending xs → Descending (take n xs)
take-Descending zero xs h = tt
take-Descending (suc n) [] h = tt
take-Descending (suc n) (x ∷ xs) h = (AreUpTo-take x n xs h.0, take-Descending n xs h.1)

module _ (window : ℕ) where
  pub none_inside :
      (t later : ℕ) (xs : List ℕ)
      → AreUpTo t xs
      → t + window ≤ later
      → keep (inside window later) xs ≡ []
  none_inside t later [] h l = refl
  none_inside t later (x ∷ xs) h l = ground (arith, h.0, none_inside t later xs h.1)

  empty_keep :
      (now : ℕ) (xs : List ℕ)
      → length (keep (inside window now) xs) ≤ 0
      → keep (inside window now) xs ≡ []
  empty_keep now [] h = refl
  empty_keep now (x ∷ xs) h = ground (arith, h, empty_keep now xs)

  -- A list cut to no less than the stamps inside the window keeps them.
  pub keep-take :
      (now n : ℕ) (xs : List ℕ)
      → Descending xs
      → length (keep (inside window now) xs) ≤ n
      → keep (inside window now) (take n xs) ≡ keep (inside window now) xs
  keep-take now zero xs d h = sym (empty_keep now xs h)
  keep-take now (suc n) [] d h = refl
  keep-take now (suc n) (x ∷ xs) d h = elim (Bool-cases (inside window now x)) [
    | inl b ↦ ground (arith, b, h, keep-take now n xs d.1)
    | inr b ↦ ground (
      arith,
      b,
      none_inside x now xs d.0,
      none_inside x now (take n xs) (AreUpTo-take x n xs d.0),
    )
  ]

  pub keep-keep :
      (now later : ℕ) (xs : List ℕ)
      → now ≤ later
      → keep (inside window later) (keep (inside window now) xs) ≡ keep (inside window later) xs
  keep-keep now later [] l = refl
  keep-keep now later (x ∷ xs) l = ground (arith, keep-keep now later xs l)
