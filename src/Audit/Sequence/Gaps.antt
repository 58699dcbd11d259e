-- ===== src/Audit/Sequence/Gaps.antt =====
-- The report of `sequence_gaps` as a whole.
use dbbuddy.Base.{
  ℕ, ◌+◌, ◌-◌, ◌≤◌, ◌<◌, ◌≡◌, ◌↔◌, refl, sym, subst, ◌∙◌, Bool, true, false, not, leb, ltb, ltb→le,
  ◌&&◌, Option, none, some, List, [], ◌∷◌, length, Holds, arith, Bool-cases, inl, inr,
}
use dbbuddy.Audit.Sequence.{
  is_in, count_values, minimum, maximum, scan, report, nothing_seen, sequence_gaps,
}
use dbbuddy.Audit.Sequence.Counting.{
  absent, NoRepeat, absent-seen, recorded, is_in-count_values, NoRepeat-count_values,
  count_values-total, within, minimum_in, maximum_in, is_in-within,
}
use dbbuddy.Audit.Sequence.Ranges.{covers, total, covers-scan, total-scan}

-- What the report says of a value that is not recorded between the first and the last.
abbrev pub IsGap : ℕ → ℕ → ℕ → List (Option ℕ) → Type 0
IsGap f l v values = (f ≤ v) × (v ≤ l) × (recorded v values ≡ false)

Holds-stretch :
    (v : ℕ) (vs us : List ℕ)
    → Holds (λ x. (minimum v vs ≤ x) × (x ≤ maximum v vs)) us
    → Holds (λ x. (minimum v vs ≤ x) × (x < minimum v vs + (maximum v vs - minimum v vs + 1))) us
Holds-stretch v vs [] h = h
Holds-stretch v vs (u ∷ us) h = ((h.0.0, omega (arith, h.0)), Holds-stretch v vs us h.1)

-- The distinct values and the absent ones make up the stretch from the first to the last.
stretch :
    (v : ℕ) (vs : List ℕ)
    → NoRepeat (v ∷ vs)
    → absent (v ∷ vs) (maximum v vs - minimum v vs + 1) (minimum v vs) + length (v ∷ vs)
      ≡ maximum v vs - minimum v vs + 1
stretch v vs h =
    absent-seen (v ∷ vs) (maximum v vs - minimum v vs + 1) (minimum v vs) h
      (Holds-stretch v vs (v ∷ vs) (within v vs))

no_ranges : (rs : List (ℕ × ℕ)) → total rs ≡ 0 → rs ≡ []
no_ranges [] h = refl
no_ranges (r ∷ rs) h = absurd (omega arith)

-- Where nothing is missing the scan would find no range either.
ranges-report :
    (v : ℕ) (vs : List ℕ) (d u : ℕ) (last : Option ℕ)
    → NoRepeat (v ∷ vs)
    → (report (v ∷ vs) d u last).ranges
      ≡ scan (v ∷ vs) (maximum v vs - minimum v vs + 1) (minimum v vs) none
unfolding report
ranges-report v vs d u last h =
    let all_in = stretch v vs h in
    let scanned = (total-scan (v ∷ vs) (maximum v vs - minimum v vs + 1) (minimum v vs) 0).0 in
    elim (Bool-cases (ltb (length (v ∷ vs)) (maximum v vs - minimum v vs + 1))) [
      | inl e ↦ rw (e, report) refl
      | inr e ↦
          rw (e, report)
            (sym (
              no_ranges (scan (v ∷ vs) (maximum v vs - minimum v vs + 1) (minimum v vs) none) (
                omega (
                  arith,
                  all_in,
                  scanned,
                  ltb→le (length (v ∷ vs)) (maximum v vs - minimum v vs + 1) e,
                ))))
    ]

in_stretch :
    (a b v : ℕ) (found : Bool)
    → a ≤ b
    → (leb a v && ltb v (a + (b - a + 1)) && not found) ≡ (leb a v && leb v b && not found)
in_stretch a b v found h = ground arith

some-injective : (a b : ℕ) → some a ≡ some b → a ≡ b
some-injective a b h = cc

covers-report :
    (seen : List ℕ) (d u : ℕ) (last : Option ℕ) (f l v : ℕ)
    → NoRepeat seen
    → (report seen d u last).first ≡ some f
    → (report seen d u last).last ≡ some l
    → covers v (report seen d u last).ranges ≡ (leb f v && leb v l && not (is_in v seen))
unfolding report
covers-report [] d u last f l v h e k = cc
covers-report (w ∷ ws) d u last f l v h e k = rw (sym (some-injective (minimum w ws) f e)) (
    rw (sym (some-injective (maximum w ws) l k)) (
      rw (ranges-report w ws d u last h) (
        rw ((covers-scan v (w ∷ ws) (maximum w ws - minimum w ws + 1) (minimum w ws) 0).0) (
          in_stretch (minimum w ws) (maximum w ws) v (is_in v (w ∷ ws))
            (omega (arith, (within w ws).0))))))

-- A value is in a reported range exactly when it lies between the first and the last value and no
-- row has it: no gap is missed, and no range names a value that is there.
pub sequence_gaps-ranges :
    (values : List (Option ℕ)) (last_value : Option ℕ) (f l v : ℕ)
    → (sequence_gaps values last_value).first ≡ some f
    → (sequence_gaps values last_value).last ≡ some l
    → (covers v (sequence_gaps values last_value).ranges ≡ true) ↔ IsGap f l v values
unfolding sequence_gaps
sequence_gaps-ranges values last_value f l v e k =
    let s = count_values nothing_seen values in
    let c =
      covers-report s.seen s.duplicates s.unsequenced last_value f l v
        (NoRepeat-count_values nothing_seen values tt) e k in
    let i = is_in-count_values v nothing_seen values in
    ((λ h. (ground arith, ground arith, ground arith)), λ h. ground arith)

present-report :
    (seen : List ℕ) (d u : ℕ) (last : Option ℕ)
    → (report seen d u last).present
        + (report seen d u last).duplicates
        + (report seen d u last).unsequenced
      ≡ length seen + d + u
unfolding report
present-report [] d u last = refl
present-report (v ∷ vs) d u last = refl

-- Every row is counted once, as a distinct value, a repeat or a row without a value.
pub sequence_gaps-rows :
    (values : List (Option ℕ)) (last_value : Option ℕ)
    → (sequence_gaps values last_value).present
        + (sequence_gaps values last_value).duplicates
        + (sequence_gaps values last_value).unsequenced
      ≡ length values
unfolding sequence_gaps
sequence_gaps-rows values last_value =
    let s = count_values nothing_seen values in
    omega (
      arith,
      count_values-total nothing_seen values,
      present-report s.seen s.duplicates s.unsequenced last_value,
    )

ends-report :
    (seen : List ℕ) (d u : ℕ) (last : Option ℕ) (f l : ℕ)
    → (report seen d u last).first ≡ some f
    → (report seen d u last).last ≡ some l
    → (is_in f seen ≡ true)
      × (is_in l seen ≡ true)
      × ((v : ℕ) → is_in v seen ≡ true → (f ≤ v) × (v ≤ l))
unfolding report
ends-report [] d u last f l e k = cc
ends-report (w ∷ ws) d u last f l e k =
    let first = some-injective (minimum w ws) f e in
    let last = some-injective (maximum w ws) l k in
    (
      subst (λ x. is_in x (w ∷ ws) ≡ true) first (minimum_in w ws),
      subst (λ x. is_in x (w ∷ ws) ≡ true) last (maximum_in w ws),
      λ v h.
          let b = is_in-within v w ws (w ∷ ws) (within w ws) h in
          (omega (arith, b, first), omega (arith, b, last)),
    )

-- The first and the last value are values of rows, and every value of a row lies between them.
pub sequence_gaps-ends :
    (values : List (Option ℕ)) (last_value : Option ℕ) (f l : ℕ)
    → (sequence_gaps values last_value).first ≡ some f
    → (sequence_gaps values last_value).last ≡ some l
    → (recorded f values ≡ true)
      × (recorded l values ≡ true)
      × ((v : ℕ) → recorded v values ≡ true → (f ≤ v) × (v ≤ l))
unfolding sequence_gaps
sequence_gaps-ends values last_value f l e k =
    let s = count_values nothing_seen values in
    let ends = ends-report s.seen s.duplicates s.unsequenced last_value f l e k in
    let i : (v : ℕ) → is_in v s.seen ≡ recorded v values =
      λ v. is_in-count_values v nothing_seen values in
    (sym (i f) ∙ ends.0, sym (i l) ∙ ends.1, λ v h. ends.2 v (i v ∙ h))
