-- ===== src/Safety/Stacked.antt =====
-- Two statements in one text.
use dbbuddy.Base.{
  ◌&&◌, ℕ, ◌<◌, ◌≡◌, refl, ap, ◌∙◌, Bool, true, false, ◌==◌, ◌||◌, List, [], ◌∷◌, ◌++◌, Holds,
  Holds-append, length, Text, empty, strip, arith, Bool-cases, inl, inr,
}
use dbbuddy.Safety.{
  blank_literals, blank_comments, blank_dashes, blank_hashes, strip_literals_and_comments,
  add_statement, parts, nonblank, statements, write, classify_statements, classify_query_safety,
  put_first,
}

abbrev is_mark : ℕ → Bool
is_mark c = c == b'\'' || c == b'"' || c == b'#'

abbrev starts_comment : ℕ → ℕ → Bool
starts_comment c d = c == b'/' && d == b'*' || c == b'-' && d == b'-'

-- No slash and star, and no double dash.
abbrev NoPair : Text → Type 0
NoPair [] = Unit {0}
NoPair (c ∷ []) = Unit {0}
NoPair (c ∷ d ∷ t) = (starts_comment c d ≡ false) × NoPair (d ∷ t)

abbrev NoMark : Text → Type 0
NoMark = Holds (λ c. is_mark c ≡ false)

-- Without quotes and without what starts a comment.
abbrev pub IsPlain : Text → Type 0
IsPlain t = NoMark t × NoPair t

blank_literals-IsPlain :
    (q : ℕ) (t : Text) → Holds (λ c. (c == q) ≡ false) t → blank_literals q 0 t ≡ t
unfolding blank_literals
blank_literals-IsPlain q [] h = refl
blank_literals-IsPlain q (c ∷ t) h = ground (arith, h.0, blank_literals-IsPlain q t h.1)

no_single : (t : Text) → NoMark t → Holds (λ c. (c == b'\'') ≡ false) t
no_single [] h = h
no_single (c ∷ t) h = (ground (arith, h.0), no_single t h.1)

no_double : (t : Text) → NoMark t → Holds (λ c. (c == b'"') ≡ false) t
no_double [] h = h
no_double (c ∷ t) h = (ground (arith, h.0), no_double t h.1)

blank_comments-IsPlain : (t : Text) → NoPair t → blank_comments 0 t ≡ t
unfolding blank_comments
blank_comments-IsPlain [] h = refl
blank_comments-IsPlain (c ∷ []) h = refl
blank_comments-IsPlain (c ∷ d ∷ t) h = ground (arith, h.0, blank_comments-IsPlain (d ∷ t) h.1)

blank_dashes-IsPlain : (t : Text) → NoPair t → blank_dashes false t ≡ t
unfolding blank_dashes
blank_dashes-IsPlain [] h = refl
blank_dashes-IsPlain (c ∷ []) h = refl
blank_dashes-IsPlain (c ∷ d ∷ t) h = ground (arith, h.0, blank_dashes-IsPlain (d ∷ t) h.1)

blank_hashes-IsPlain : (t : Text) → NoMark t → blank_hashes false t ≡ t
unfolding blank_hashes
blank_hashes-IsPlain [] h = refl
blank_hashes-IsPlain (c ∷ t) h = ground (arith, h.0, blank_hashes-IsPlain t h.1)

strip-IsPlain : (t : Text) → IsPlain t → strip_literals_and_comments t ≡ t
unfolding strip_literals_and_comments
strip-IsPlain t h = rw (blank_literals-IsPlain b'\'' t (no_single t h.0)) (
    rw (blank_literals-IsPlain b'"' t (no_double t h.0)) (
      rw (blank_comments-IsPlain t h.1)
        (rw (blank_dashes-IsPlain t h.1) (blank_hashes-IsPlain t h.0))))

put_first-append :
    (c : ℕ) (xs ys : List Text) → 0 < length xs → put_first c (xs ++ ys) ≡ put_first c xs ++ ys
put_first-append c [] ys h = absurd (omega arith)
put_first-append c (x ∷ xs) ys h = refl

length-put_first : (c : ℕ) (xs : List Text) → 0 < length (put_first c xs)
length-put_first c [] = omega arith
length-put_first c (x ∷ xs) = omega arith

length-parts : (t : Text) → 0 < length (parts t)
unfolding parts
length-parts [] = omega arith
length-parts (c ∷ t) = ground (arith, length-put_first c (parts t))

parts-append : (a b : Text) → parts (a ++ b';' ∷ b) ≡ parts a ++ parts b
unfolding parts
parts-append [] b = refl
parts-append (c ∷ a) b = elim (Bool-cases (c == b';')) [
  | inl e ↦ rw (e, parts) (ap (λ ps. [] ∷ ps) (parts-append a b))
  | inr e ↦
      rw (e, parts)
        (ap (put_first c) (parts-append a b)
          ∙ put_first-append c (parts a) (parts b) (length-parts a))
]

add_statement-append :
    (part : Text) (xs ys : List Text) → add_statement part (xs ++ ys) ≡ add_statement part xs ++ ys
unfolding add_statement
add_statement-append part xs ys = elim (Bool-cases (empty (strip part))) [
  | inl e ↦ rw (e, add_statement) refl
  | inr e ↦ rw (e, add_statement) refl
]

nonblank-append : (xs ys : List Text) → nonblank (xs ++ ys) ≡ nonblank xs ++ nonblank ys
unfolding nonblank
nonblank-append [] ys = refl
nonblank-append (part ∷ xs) ys =
    ap (add_statement part) (nonblank-append xs ys)
    ∙ add_statement-append part (nonblank xs) (nonblank ys)

statements-append : (a b : Text) → statements (a ++ b';' ∷ b) ≡ statements a ++ statements b
unfolding statements
statements-append a b = ap nonblank (parts-append a b) ∙ nonblank-append (parts a) (parts b)

classify-two :
    (xs ys : List Text)
    → 0 < length xs
    → 0 < length ys
    → classify_statements (xs ++ ys) ≡ (write, true)
unfolding classify_statements
classify-two [] ys h k = absurd (omega arith)
classify-two (x ∷ []) [] h k = absurd (omega arith)
classify-two (x ∷ []) (y ∷ ys) h k = refl
classify-two (x ∷ x' ∷ xs) ys h k = refl

-- The semicolon is in no pair.
NoPair-stacked : (a b : Text) → NoPair a → NoPair b → NoPair (a ++ b';' ∷ b)
NoPair-stacked [] [] h k = tt
NoPair-stacked [] (d ∷ b) h k = (ground arith, k)
NoPair-stacked (c ∷ []) b h k = (ground arith, NoPair-stacked [] b tt k)
NoPair-stacked (c ∷ d ∷ a) b h k = (h.0, NoPair-stacked (d ∷ a) b h.1 k)

IsPlain-stacked : (a b : Text) → IsPlain a → IsPlain b → IsPlain (a ++ b';' ∷ b)
IsPlain-stacked a b h k =
    (Holds-append (λ c. is_mark c ≡ false) a (b';' ∷ b) h.0 (refl, k.0), NoPair-stacked a b h.1 k.1)

-- Where the two texts hold no quote, no hash, no double dash and no slash with a star after it, and
-- each has a statement, the text that joins them by a semicolon is a write that wants confirmation,
-- whatever the statements are.
pub classify-stacked :
    (a b : Text)
    → IsPlain a
    → IsPlain b
    → 0 < length (statements a)
    → 0 < length (statements b)
    → classify_query_safety (a ++ b';' ∷ b) ≡ (write, true)
unfolding classify_query_safety
classify-stacked a b h k m n =
    rw (strip-IsPlain (a ++ b';' ∷ b) (IsPlain-stacked a b h k))
      (rw (statements-append a b) (classify-two (statements a) (statements b) m n))
