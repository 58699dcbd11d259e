-- ===== src/Sql/Quoting.antt =====
-- Quoted text against a reader of SQL's quoted tokens, in which a doubled quote stands for one.
use dbbuddy.Base.{
  ℕ, ◌≡◌, ◌≢◌, Option, none, some, [], ◌∷◌, ◌++◌, append_assoc, ◌==◌, if◌then◌else◌, arith, Text,
  Bool-cases, inl, inr, false, Holds,
}
use dbbuddy.Sql.Dialect.{Dialect, double, quote_identifier}
use dbbuddy.Sql.Value.{str, render_literal}

abbrev push : ℕ → Option (Text × Text) → Option (Text × Text)
push c none = none
push c (some (t, rest)) = some (c ∷ t, rest)

abbrev push_all : Text → Option (Text × Text) → Option (Text × Text)
push_all s none = none
push_all s (some (t, rest)) = some (s ++ t, rest)

-- What stands up to the closing quote, and what follows it.
pub read_quoted : ℕ → Text → Option (Text × Text)
read_quoted q [] = none
read_quoted q (c ∷ []) = if c == q then some ([], []) else none
read_quoted q (c ∷ d ∷ t) =
    let pair = push q (read_quoted q t) in
    let more = push c (read_quoted q (d ∷ t)) in
    if c == q then (if d == q then pair else some ([], d ∷ t)) else more

-- A token that starts with the quote.
abbrev pub read_token : ℕ → Text → Option (Text × Text)
read_token q [] = none
read_token q (c ∷ t) = if c == q then read_quoted q t else none

abbrev StartsOutside : ℕ → Text → Type 0
StartsOutside q [] = Unit {0}
StartsOutside q (c ∷ t) = c ≢ q

read_end : (q : ℕ) (rest : Text) → StartsOutside q rest → read_quoted q (q ∷ rest) ≡ some ([], rest)
unfolding read_quoted
read_end q [] h = ground arith
read_end q (c ∷ t) h = ground arith

read_other :
    (q c : ℕ) (d : ℕ) (t : Text)
    → c ≢ q
    → read_quoted q (c ∷ d ∷ t) ≡ push c (read_quoted q (d ∷ t))
unfolding read_quoted
read_other q c d t h = ground arith

read_pair : (q : ℕ) (t : Text) → read_quoted q (q ∷ q ∷ t) ≡ push q (read_quoted q t)
unfolding read_quoted
read_pair q t = ground arith

push-read :
    (q c : ℕ) (s rest : Text)
    → c ≢ q
    → read_quoted q (c ∷ (double q s ++ q ∷ rest)) ≡ push c (read_quoted q (double q s ++ q ∷ rest))
unfolding double
push-read q c [] rest h = read_other q c q rest h
push-read q c (d ∷ s) rest h = elim (Bool-cases (d == q)) [
  | inl e ↦ rw e (read_other q c q _ h)
  | inr e ↦ rw e (read_other q c d _ h)
]

read-double :
    (q : ℕ) (s rest : Text)
    → StartsOutside q rest
    → read_quoted q (double q s ++ q ∷ rest) ≡ some (s, rest)
unfolding double
read-double q [] rest h = read_end q rest h
read-double q (c ∷ s) rest h = elim (Bool-cases (c == q)) [
  | inl e ↦ ground (arith, read_pair q (double q s ++ q ∷ rest), read-double q s rest h)
  | inr e ↦ ground (arith, push-read q c s rest, read-double q s rest h)
]

-- Whatever the identifier holds, SQL reads the quoted form back as that identifier, and nothing
-- after it is taken in, if what follows does not start with the quote.
pub read-quote_identifier :
    (d : Dialect) (name rest : Text)
    → StartsOutside d.capabilities.identifier_quote_char rest
    → read_token d.capabilities.identifier_quote_char (quote_identifier d name ++ rest)
      ≡ some (name, rest)
unfolding quote_identifier
read-quote_identifier d name rest h =
    let q = d.capabilities.identifier_quote_char in
    ground (arith, read-double q name rest h, append_assoc (double q name) (q ∷ []) rest)

-- What stands up to the closing quote of a literal where a backslash starts an escape, as in MySQL's
-- default mode. `unescape` is what the server reads an escaped character as.
unfoldable pub read_escaped : (unescape : ℕ → Text) → Text → Option (Text × Text)
read_escaped unescape [] = none
read_escaped unescape (c ∷ []) = if c == b'\'' then some ([], []) else none
read_escaped unescape (c ∷ d ∷ t) =
    let rest = read_escaped unescape t in
    let pair = push b'\'' rest in
    let escape = push_all (unescape d) rest in
    let more = push c (read_escaped unescape (d ∷ t)) in
    if c == b'\\'
    then escape
    else if c == b'\''
    then (if d == b'\'' then pair else some ([], d ∷ t))
    else more

-- A literal in the server's mode: `none` where a backslash is a character like any other, as in
-- standard SQL, PostgreSQL and SQL Server.
unfoldable pub read_literal : Option (ℕ → Text) → Text → Option (Text × Text)
unfolding read_escaped
read_literal none t = read_token b'\'' t
read_literal (some unescape) [] = none
read_literal (some unescape) (c ∷ t) = if c == b'\'' then read_escaped unescape t else none

-- Where a backslash starts an escape, there is none in the text.
abbrev pub FitsMode : Option (ℕ → Text) → Text → Type 0
FitsMode none s = Unit {0}
FitsMode (some unescape) s = Holds (λ c. (c == b'\\') ≡ false) s

read_escaped-end :
    (unescape : ℕ → Text) (rest : Text)
    → StartsOutside b'\'' rest
    → read_escaped unescape (b'\'' ∷ rest) ≡ some ([], rest)
unfolding read_escaped
read_escaped-end unescape [] h = ground arith
read_escaped-end unescape (c ∷ t) h = ground (arith, h)

read_escaped-pair :
    (unescape : ℕ → Text) (t : Text)
    → read_escaped unescape (b'\'' ∷ b'\'' ∷ t) ≡ push b'\'' (read_escaped unescape t)
unfolding read_escaped
read_escaped-pair unescape t = ground arith

read_escaped-other :
    (unescape : ℕ → Text) (c d : ℕ) (t : Text)
    → (c == b'\'') ≡ false
    → (c == b'\\') ≡ false
    → read_escaped unescape (c ∷ d ∷ t) ≡ push c (read_escaped unescape (d ∷ t))
unfolding read_escaped
read_escaped-other unescape c d t h k = ground (arith, h, k)

push-read_escaped :
    (unescape : ℕ → Text) (c : ℕ) (s rest : Text)
    → (c == b'\'') ≡ false
    → (c == b'\\') ≡ false
    → read_escaped unescape (c ∷ (double b'\'' s ++ b'\'' ∷ rest))
      ≡ push c (read_escaped unescape (double b'\'' s ++ b'\'' ∷ rest))
unfolding double
push-read_escaped unescape c [] rest h k = read_escaped-other unescape c b'\'' rest h k
push-read_escaped unescape c (d ∷ s) rest h k = elim (Bool-cases (d == b'\'')) [
  | inl e ↦ rw e (read_escaped-other unescape c b'\'' _ h k)
  | inr e ↦ rw e (read_escaped-other unescape c d _ h k)
]

read_escaped-double :
    (unescape : ℕ → Text) (s rest : Text)
    → StartsOutside b'\'' rest
    → Holds (λ c. (c == b'\\') ≡ false) s
    → read_escaped unescape (double b'\'' s ++ b'\'' ∷ rest) ≡ some (s, rest)
unfolding double
read_escaped-double unescape [] rest h k = read_escaped-end unescape rest h
read_escaped-double unescape (c ∷ s) rest h k = elim (Bool-cases (c == b'\'')) [
  | inl e ↦ ground (
    arith,
    read_escaped-pair unescape (double b'\'' s ++ b'\'' ∷ rest),
    read_escaped-double unescape s rest h k.1,
  )
  | inr e ↦
      ground (
        arith,
        push-read_escaped unescape c s rest e k.0,
        read_escaped-double unescape s rest h k.1,
      )
]

-- SQL reads the literal of a text value back as that text, and nothing after it is taken in, if what
-- follows does not start with a quote: whatever the text where a doubled quote is the only escape,
-- and a text without backslashes where a backslash starts an escape too.
pub read-render_literal :
    (mode : Option (ℕ → Text)) (s rest : Text)
    → FitsMode mode s
    → StartsOutside b'\'' rest
    → read_literal mode (render_literal (str s) ++ rest) ≡ some (s, rest)
unfolding render_literal read_literal
read-render_literal none s rest f h =
    ground (arith, read-double b'\'' s rest h, append_assoc (double b'\'' s) (b'\'' ∷ []) rest)
read-render_literal (some unescape) s rest f h = ground (
  arith,
  read_escaped-double unescape s rest h f,
  append_assoc (double b'\'' s) (b'\'' ∷ []) rest,
)
