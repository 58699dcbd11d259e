-- ===== src/Joins/Weight.antt =====
-- How many entries a search can still take from its queue.
use dbbuddy.Base.{
  ℕ, zero, suc, ◌+◌, ◌*◌, ◌≤◌, ◌<◌, ◌≡◌, ap, Bool, true, false, not, List, [], ◌∷◌, ◌++◌, keep,
  keep-true, keep-false, length, Text, same_iff, Holds, arith, Bool-cases, inl, inr,
}
use dbbuddy.Base.Equality.{text_eq}
use dbbuddy.Base.Distinct.{is_in, Distinct-keep, length-Distinct-le}
use dbbuddy.Base.Dict.{keys}
use dbbuddy.Joins.Graph.{JoinKeys, Neighbours, Edge, Entry, expand, entries}
use dbbuddy.Joins.WellFormed.{AreTables}

abbrev pub is_new : List Text → Text → Bool
is_new visited t = not (is_in t visited)

unfoldable pub unvisited : List Text → List Text → ℕ
unvisited tables visited = length (keep (is_new visited) tables)

unvisited-cons-le :
    (tables visited : List Text) (t : Text)
    → unvisited tables (t ∷ visited) ≤ unvisited tables visited
unfolding unvisited
unvisited-cons-le [] visited t = omega arith
unvisited-cons-le (u ∷ tables) visited t = ground (arith, unvisited-cons-le tables visited t)

unvisited-cons-lt :
    (tables visited : List Text) (t : Text)
    → is_in t tables ≡ true
    → is_in t visited ≡ false
    → unvisited tables (t ∷ visited) < unvisited tables visited
unfolding unvisited
unvisited-cons-lt [] visited t h k = cc
unvisited-cons-lt (u ∷ tables) visited t h k = ground (
  arith,
  unvisited-cons-le tables visited t,
  unvisited-cons-lt tables visited t,
  same_iff t u,
  same_iff u t,
)

products_mono : (m n x y : ℕ) → suc m ≤ suc n → x ≤ y → 1 + suc m * x ≤ 1 + suc n * y
products_mono m n x y h k = grind arith

pub entries_mono : (m n : ℕ) → m ≤ n → entries m ≤ entries n
entries_mono zero zero h = omega arith
entries_mono zero (suc n) h = omega arith
entries_mono (suc m) zero h = absurd (omega arith)
entries_mono (suc m) (suc n) h =
    products_mono m n (entries m) (entries n) h (entries_mono m n (omega arith))

entries-positive : (n : ℕ) → 0 < entries n
entries-positive zero = omega arith
entries-positive (suc n) = omega arith

-- How many entries the search can still take from the queue.
unfoldable pub weight : List Text → List Text → Text → ℕ
weight tables visited t = entries (unvisited tables (t ∷ visited))

unfoldable pub total : List Text → List Text → List Entry → ℕ
total tables visited [] = 0
total tables visited (x ∷ queue) = weight tables visited x.0 + total tables visited queue

pub total-append :
    (tables visited : List Text) (p q : List Entry)
    → total tables visited (p ++ q) ≡ total tables visited p + total tables visited q
unfolding total
total-append tables visited [] q = omega arith
total-append tables visited (x ∷ p) q = omega (arith, total-append tables visited p q)

unvisited-swap :
    (tables visited : List Text) (s t : Text)
    → unvisited tables (s ∷ t ∷ visited) ≤ unvisited tables (s ∷ visited)
unfolding unvisited
unvisited-swap [] visited s t = omega arith
unvisited-swap (u ∷ tables) visited s t = ground (arith, unvisited-swap tables visited s t)

pub total-cons-le :
    (tables visited : List Text) (t : Text) (queue : List Entry)
    → total tables (t ∷ visited) queue ≤ total tables visited queue
unfolding total weight
total-cons-le tables visited t [] = omega arith
total-cons-le tables visited t (x ∷ queue) = omega (
  arith,
  total-cons-le tables visited t queue,
  entries_mono (unvisited tables (x.0 ∷ t ∷ visited)) (unvisited tables (x.0 ∷ visited))
      (unvisited-swap tables visited x.0 t),
)

new_names : List Text → Neighbours → List Text
new_names visited ns = keep (is_new visited) (keys ns)

weight-le :
    (tables visited : List Text) (t : Text) (n : ℕ)
    → is_in t tables ≡ true
    → is_in t visited ≡ false
    → unvisited tables visited ≤ suc n
    → weight tables visited t ≤ entries n
unfolding weight
weight-le tables visited t n h b e =
    let fewer = unvisited-cons-lt tables visited t h b in
    entries_mono (unvisited tables (t ∷ visited)) n (omega arith)

add_one_more : (a x c y : ℕ) → a ≤ y → x ≤ c * y → a + x ≤ suc c * y
add_one_more a x c y h k = grind arith

pub expand-visited :
    (visited : List Text) (current : Text) (path : List Edge) (t : Text) (k : JoinKeys)
    (ns : Neighbours)
    → is_in t visited ≡ true
    → expand visited current path ((t, k) ∷ ns) ≡ expand visited current path ns
unfolding expand
expand-visited visited current path t k ns h = rw (h, expand)

pub expand-new :
    (visited : List Text) (current : Text) (path : List Edge) (t : Text) (k : JoinKeys)
    (ns : Neighbours)
    → is_in t visited ≡ false
    → expand visited current path ((t, k) ∷ ns)
      ≡ (t, path ++ record { left = current; right = t; keys = k } ∷ [])
        ∷ expand visited current path ns
unfolding expand
expand-new visited current path t k ns h = rw (h, expand)

new_names-visited :
    (visited : List Text) (t : Text) (k : JoinKeys) (ns : Neighbours)
    → is_in t visited ≡ true
    → new_names visited ((t, k) ∷ ns) ≡ new_names visited ns
unfolding new_names
new_names-visited visited t k ns h = keep-false (is_new visited) t (keys ns) (ap not h)

new_names-new :
    (visited : List Text) (t : Text) (k : JoinKeys) (ns : Neighbours)
    → is_in t visited ≡ false
    → new_names visited ((t, k) ∷ ns) ≡ t ∷ new_names visited ns
unfolding new_names
new_names-new visited t k ns h = keep-true (is_new visited) t (keys ns) (ap not h)

-- Each table that is added weighs as much as one unvisited table fewer allows.
total-expand :
    (tables visited : List Text) (current : Text) (path : List Edge) (ns : Neighbours) (n : ℕ)
    → Holds (λ n. is_in n.0 tables ≡ true) ns
    → unvisited tables visited ≤ suc n
    → total tables visited (expand visited current path ns)
      ≤ length (new_names visited ns) * entries n
unfolding expand new_names total
total-expand tables visited current path [] n h e = omega arith
total-expand tables visited current path ((t, k) ∷ ns) n h e =
    let rest = total-expand tables visited current path ns n h.1 e in
    elim (Bool-cases (is_in t visited)) [
      | inl b ↦
          rw (expand-visited visited current path t k ns b, new_names-visited visited t k ns b) rest
      | inr b ↦
          rw (expand-new visited current path t k ns b, new_names-new visited t k ns b)
            (add_one_more _ _ _ _ (weight-le tables visited t n h.0 b e) rest)
    ]

is_in-keep-new :
    (tables visited : List Text) (t : Text)
    → is_in t tables ≡ true
    → is_in t visited ≡ false
    → is_in t (keep (is_new visited) tables) ≡ true
is_in-keep-new [] visited t h k = h
is_in-keep-new (u ∷ tables) visited t h k =
    ground (arith, same_iff t u, is_in-keep-new tables visited t)

new_names-in :
    (tables visited : List Text) (ns : Neighbours)
    → Holds (λ n. is_in n.0 tables ≡ true) ns
    → Holds (λ y. is_in y (keep (is_new visited) tables) ≡ true) (new_names visited ns)
unfolding new_names
new_names-in tables visited [] h = tt
new_names-in tables visited ((t, k) ∷ ns) h = elim (Bool-cases (is_in t visited)) [
  | inl b ↦ rw (new_names-visited visited t k ns b) (new_names-in tables visited ns h.1)
  | inr b ↦
      rw (new_names-new visited t k ns b)
        (is_in-keep-new tables visited t h.0 b, new_names-in tables visited ns h.1)
]

new_names-le :
    (tables visited : List Text) (ns : Neighbours)
    → AreTables tables ns
    → length (new_names visited ns) ≤ unvisited tables visited
unfolding new_names unvisited
new_names-le tables visited ns h =
    length-Distinct-le (keep (is_new visited) tables) (keep (is_new visited) (keys ns))
      (Distinct-keep (is_new visited) (keys ns) h.0) (new_names-in tables visited ns h.1)

times_mono : (l m x : ℕ) → l ≤ m → l * x ≤ m * x
times_mono l m x h = grind arith

below_entries : (u l x : ℕ) → l ≤ u → ((n : ℕ) → u ≤ suc n → x ≤ l * entries n) → x < entries u
below_entries zero l x h k = omega (arith, k 0)
below_entries (suc m) l x h k = omega (arith, k m (omega arith), times_mono l (suc m) (entries m) h)

-- Taking an entry from the queue adds less than the entry weighs.
pub expand-lt :
    (tables visited : List Text) (current : Text) (path : List Edge) (ns : Neighbours)
    → AreTables tables ns
    → total tables (current ∷ visited) (expand (current ∷ visited) current path ns)
      < weight tables visited current
unfolding weight
expand-lt tables visited current path ns h =
    below_entries (unvisited tables (current ∷ visited)) (length (new_names (current ∷ visited) ns))
      _ (new_names-le tables (current ∷ visited) ns h)
      (λ n e. total-expand tables (current ∷ visited) current path ns n h.1 e)
