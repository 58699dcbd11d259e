-- ===== src/Safety.antt =====
-- dbbuddy_core/safety.py: whether a statement only reads. The substitutions of
-- `_strip_literals_and_comments` go from left to right; what a match has taken in is skipped.
pub mod Stacked
mod Examples
use dbbuddy.Base.{
  ℕ, zero, suc, ◌+◌, Bool, true, false, not, ◌==◌, if◌then◌else◌, ◌&&◌, ◌||◌, Option, none, some,
  List, [], ◌∷◌, map, any, Text, codes, empty, lower, strip, split_words, member,
}

abbrev plus : ℕ → Option ℕ → Option ℕ
plus n none = none
plus n (some m) = some (n + m)

-- How much `(?:[^q]|qq)*q` takes in; a doubled quote at which the rest does not close gives back
-- its second half.
unfoldable pub literal_end : ℕ → Text → Option ℕ
literal_end q [] = none
literal_end q (c ∷ []) = if c == q then some 1 else none
literal_end q (c ∷ d ∷ t) =
    let pair = literal_end q t in
    let more = literal_end q (d ∷ t) in
    if c == q
    then (if d == q then (elim pair [ none ↦ some 1 | some n ↦ some (2 + n) ]) else some 1)
    else plus 1 more

-- A literal becomes an empty one.
unfoldable pub blank_literals : ℕ → (skip : ℕ) → Text → Text
unfolding literal_end
blank_literals q skip [] = []
blank_literals q (suc skip) (c ∷ t) = blank_literals q skip t
blank_literals q zero (c ∷ t) =
    let kept = c ∷ blank_literals q 0 t in
    if c == q
    then (elim (literal_end q t) [ none ↦ kept | some n ↦ q ∷ q ∷ blank_literals q n t ])
    else kept

-- How much `.*?\*/` takes in.
unfoldable pub comment_end : Text → Option ℕ
comment_end [] = none
comment_end (c ∷ []) = none
comment_end (c ∷ d ∷ t) =
    let more = comment_end (d ∷ t) in if c == b'*' && d == b'/' then some 2 else plus 1 more

unfoldable pub blank_comments : (skip : ℕ) → Text → Text
unfolding comment_end
blank_comments skip [] = []
blank_comments (suc skip) (c ∷ t) = blank_comments skip t
blank_comments zero (c ∷ []) = c ∷ []
blank_comments zero (c ∷ d ∷ t) =
    let kept = c ∷ blank_comments 0 (d ∷ t) in
    if c == b'/' && d == b'*'
    then (elim (comment_end t) [ none ↦ kept | some n ↦ b' ' ∷ blank_comments (suc n) (d ∷ t) ])
    else kept

-- From a double dash to the end of its line.
unfoldable pub blank_dashes : (inside : Bool) → Text → Text
blank_dashes inside [] = []
blank_dashes true (c ∷ t) =
    let ended = c ∷ blank_dashes false t in
    let more = blank_dashes true t in if c == 10 then ended else more
blank_dashes false (c ∷ []) = c ∷ []
blank_dashes false (c ∷ d ∷ t) =
    let kept = c ∷ blank_dashes false (d ∷ t) in
    let dropped = b' ' ∷ blank_dashes true (d ∷ t) in
    if c == b'-' && d == b'-' then dropped else kept

unfoldable pub blank_hashes : (inside : Bool) → Text → Text
blank_hashes inside [] = []
blank_hashes true (c ∷ t) =
    let ended = c ∷ blank_hashes false t in
    let more = blank_hashes true t in if c == 10 then ended else more
blank_hashes false (c ∷ t) =
    let kept = c ∷ blank_hashes false t in
    let dropped = b' ' ∷ blank_hashes true t in if c == b'#' then dropped else kept

unfoldable pub strip_literals_and_comments : Text → Text
unfolding blank_literals blank_comments blank_dashes blank_hashes
strip_literals_and_comments sql =
    blank_hashes false
      (blank_dashes false (blank_comments 0 (blank_literals b'"' 0 (blank_literals b'\'' 0 sql))))

-- A part of the split, unless it is blank.
unfoldable pub add_statement : Text → List Text → List Text
unfolding strip
add_statement part rest = let s = strip part in if empty s then rest else s ∷ rest

abbrev pub put_first : ℕ → List Text → List Text
put_first c [] = (c ∷ []) ∷ []
put_first c (part ∷ parts) = (c ∷ part) ∷ parts

unfoldable pub parts : Text → List Text
parts [] = [] ∷ []
parts (c ∷ t) = let rest = parts t in if c == b';' then [] ∷ rest else put_first c rest

unfoldable pub nonblank : List Text → List Text
unfolding add_statement
nonblank [] = []
nonblank (part ∷ rest) = add_statement part (nonblank rest)

unfoldable pub statements : Text → List Text
unfolding parts nonblank
statements cleaned = nonblank (parts cleaned)

pub data Category : Type 0 where
  read write : Category

abbrev pub read_queries : List Text
read_queries = map codes ("select" ∷ "show" ∷ "describe" ∷ "explain" ∷ [])

abbrev pub write_queries : List Text
write_queries = map codes (
    "insert" ∷ "update" ∷ "delete" ∷ "drop" ∷ "alter" ∷ "truncate" ∷ "grant" ∷ "revoke" ∷ "create"
    ∷ [])

unfoldable pub classify_words : List Text → Category × Bool
unfolding member
classify_words [] = (write, true)
classify_words (word ∷ words) =
    if member word read_queries
    then (if member word (codes "explain" ∷ []) && any (λ w. member w write_queries) (word ∷ words)
        then (write, true)
        else (read, false))
    else (write, true)

unfoldable pub classify_statements : List Text → Category × Bool
unfolding classify_words lower split_words
classify_statements [] = (write, true)
classify_statements (statement ∷ []) = classify_words (split_words [] (lower statement))
classify_statements (statement ∷ other ∷ more) = (write, true)

unfoldable pub classify_query_safety : Text → Category × Bool
unfolding strip_literals_and_comments statements classify_statements
classify_query_safety sql = classify_statements (statements (strip_literals_and_comments sql))
