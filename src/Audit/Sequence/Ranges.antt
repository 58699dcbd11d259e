-- ===== src/Audit/Sequence/Ranges.antt =====
-- The ranges that the scan reports cover the absent values and no others.
use dbbuddy.Base.{
  ℕ, zero, suc, ◌+◌, ◌-◌, ◌<◌, ◌≡◌, ap, Bool, true, not, leb, ltb, ◌==◌, ◌&&◌, ◌||◌, none, some,
  List, [], ◌∷◌, any, arith, Bool-cases, inl, inr,
}
use dbbuddy.Audit.Sequence.{is_in, scan}
use dbbuddy.Audit.Sequence.Counting.{absent}

abbrev pub covers : ℕ → List (ℕ × ℕ) → Bool
covers v = any (λ r. leb r.0 v && leb v r.1)

-- How many values the ranges have.
abbrev pub total : List (ℕ × ℕ) → ℕ
total [] = 0
total (r ∷ rs) = (r.1 - r.0 + 1) + total rs

abbrev pub is_absent : ℕ → List ℕ → ℕ → ℕ → Bool
is_absent v seen value count = leb value v && ltb v (value + count) && not (is_in v seen)

is_in_at : (v value : ℕ) (seen : List ℕ) → (v == value) ≡ true → is_in v seen ≡ is_in value seen
is_in_at v value seen e = let same : v ≡ value = ground arith in ap (λ x. is_in x seen) same

pub covers-scan :
    (v : ℕ) (seen : List ℕ) (count value start : ℕ)
    → (covers v (scan seen count value none) ≡ is_absent v seen value count)
      × (start < value
          → covers v (scan seen count value (some start))
            ≡ (leb start v && ltb v value || is_absent v seen value count))
unfolding scan
covers-scan v seen zero value start = (ground arith, λ h. ground arith)
covers-scan v seen (suc count) value start =
    let rest = covers-scan v seen count (suc value) start in
    let opened = (covers-scan v seen count (suc value) value).1 (omega arith) in
    elim (Bool-cases (v == value)) [
      | inl e ↦
          let same : is_in v seen ≡ is_in value seen = is_in_at v value seen e in
          (ground arith, λ h. ground arith)
      | inr e ↦ (ground arith, λ h. ground arith)
    ]

pub total-scan :
    (seen : List ℕ) (count value start : ℕ)
    → (total (scan seen count value none) ≡ absent seen count value)
      × (start < value
          → total (scan seen count value (some start)) ≡ (value - start) + absent seen count value)
unfolding scan absent
total-scan seen zero value start = (omega arith, λ h. omega arith)
total-scan seen (suc count) value start =
    let rest = total-scan seen count (suc value) start in
    let opened = (total-scan seen count (suc value) value).1 (omega arith) in
    (ground arith, λ h. ground arith)
