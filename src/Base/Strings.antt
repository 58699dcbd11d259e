-- ===== src/Base/Strings.antt =====
-- Text that the code walks or builds: the list of its code points, with the `str` methods that the
-- code calls. Case and white space are those of ASCII.
use Prim.Native.Nat.{ℕ, zero, suc, ◌+◌, ◌-◌, ◌/◌, ◌%◌}
use Prim.Native.Char.{code}
use Prim.Native.String.{String}
use mathlib.Core.Path.{◌≡◌, refl}
use mathlib.Core.Logic.{◌↔◌}
use mathlib.Core.Bool.{Bool, true, false, ◌&&◌, ◌||◌}
use mathlib.Core.List.{List, [], ◌∷◌, ◌++◌, map, reverse}
use native.Mathlib.Omega.{arith}
use dbbuddy.Base.Tests.{ltb, leb, ◌==◌, if◌then◌else◌}
use dbbuddy.Base.Lists.{any}

abbrev pub Text : Type 0
Text = List ℕ

abbrev pub codes : String → Text
codes String.[] = []
codes (String.◌∷◌ c s) = code c ∷ codes s

-- Whether the text is empty, which Python reads as false.
abbrev pub empty : Text → Bool
empty [] = true
empty (c ∷ t) = false

unfoldable pub same : Text → Text → Bool
same [] [] = true
same [] (d ∷ u) = false
same (c ∷ t) [] = false
same (c ∷ t) (d ∷ u) = c == d && same t u

pub same_self : (t : Text) → same t t ≡ true
unfolding same
same_self [] = refl
same_self (c ∷ t) = ground (arith, same_self t)

pub same→eq : (t u : Text) → same t u ≡ true → t ≡ u
unfolding same
same→eq [] [] h = refl
same→eq [] (d ∷ u) h = cc
same→eq (c ∷ t) [] h = cc
same→eq (c ∷ t) (d ∷ u) h = ground (arith, same→eq t u)

pub same_iff : (t u : Text) → (same t u ≡ true) ↔ (t ≡ u)
same_iff t u = (same→eq t u, λ e. rw e (same_self u))

unfoldable pub member : Text → List Text → Bool
unfolding same
member t words = any (same t) words

unfoldable pub is_space : ℕ → Bool
is_space c = c == 32 || leb 9 c && leb c 13 || leb 28 c && leb c 31

unfoldable pub upper_char : ℕ → ℕ
upper_char c = if leb b'a' c && leb c b'z' then c - 32 else c

unfoldable pub lower_char : ℕ → ℕ
lower_char c = if leb b'A' c && leb c b'Z' then c + 32 else c

unfoldable pub upper : Text → Text
unfolding upper_char
upper = map upper_char

unfoldable pub lower : Text → Text
unfolding lower_char
lower = map lower_char

unfoldable pub strip_left : Text → Text
unfolding is_space
strip_left [] = []
strip_left (c ∷ t) = let rest = strip_left t in if is_space c then rest else c ∷ t

-- `str.strip()`.
unfoldable pub strip : Text → Text
unfolding strip_left
strip t = reverse (strip_left (reverse (strip_left t)))

-- The words of `str.split()`; the first argument is the word being read, reversed.
unfoldable pub split_words : Text → Text → List Text
unfolding is_space
split_words [] [] = []
split_words (w ∷ word) [] = reverse (w ∷ word) ∷ []
split_words word (c ∷ t) =
    let ended = split_words [] t in
    let more = split_words (c ∷ word) t in
    if is_space c then (if empty word then ended else reverse word ∷ ended) else more

unfoldable pub join_rest : Text → List Text → Text
join_rest sep [] = []
join_rest sep (t ∷ ts) = sep ++ (t ++ join_rest sep ts)

-- `sep.join(parts)`.
unfoldable pub join : Text → List Text → Text
unfolding join_rest
join sep [] = []
join sep (t ∷ ts) = t ++ join_rest sep ts

unfoldable pub decimal_fuel : ℕ → ℕ → Text → Text
decimal_fuel zero n acc = acc
decimal_fuel (suc fuel) n acc =
    let rest = decimal_fuel fuel (n / 10) ((48 + n % 10) ∷ acc) in
    if ltb n 10 then (48 + n) ∷ acc else rest

-- `str(n)` of a natural number.
unfoldable pub decimal : ℕ → Text
unfolding decimal_fuel
decimal n = decimal_fuel (suc n) n []

-- How often a character occurs.
unfoldable pub occurrences : ℕ → Text → ℕ
occurrences c [] = 0
occurrences c (d ∷ t) = (if c == d then 1 else 0) + occurrences c t

pub occurrences-append :
    (c : ℕ) (t u : Text) → occurrences c (t ++ u) ≡ occurrences c t + occurrences c u
unfolding occurrences
occurrences-append c [] u = omega arith
occurrences-append c (d ∷ t) u = omega (arith, occurrences-append c t u)
