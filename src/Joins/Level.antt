-- ===== src/Joins/Level.antt =====
-- The queue of the search holds paths of one length, then paths one edge longer.
use dbbuddy.Base.{
  ℕ, zero, suc, ◌+◌, ◌<◌, ◌≡◌, subst, true, false, ◌||◌, some, List, [], ◌∷◌, ◌++◌, length, Text,
  same, same_iff, Holds, Holds-append, arith, Bool-cases, inl, inr,
}
use native.Mathlib.Decide.{dec_lt}
use dbbuddy.Base.Equality.{text_eq}
use dbbuddy.Base.Distinct.{is_in}
use dbbuddy.Base.Dict.{get, keys}
use dbbuddy.Joins.Graph.{JoinKeys, Graph, neighbours, Edge, Entry, expand}
use dbbuddy.Joins.WellFormed.{IsGraph, neighbours-AreTables}
use dbbuddy.Joins.Chain.{IsChain, own_roads, expand-paths, expand-in, is_in-keys-append}

module _ (graph : Graph) (start target : Text) where
  -- A table that `n` edges lead to.
  abbrev pub Reaches : ℕ → Text → Type 0
  Reaches zero t = start ≡ t
  Reaches (suc n) t =
      (v : Text) × Reaches n v × (k : JoinKeys) × (get t (neighbours v graph) ≡ some k)

  pub chain-Reaches :
      (path : List Edge) (n m : ℕ) (v t : Text)
      → n + length path ≡ m
      → Reaches n v
      → IsChain graph v path t
      → Reaches m t
  chain-Reaches [] n m v t e r h =
      let same_count : n ≡ m = omega arith in
      subst (λ x. Reaches x t) same_count (subst (Reaches n) h r)
  chain-Reaches (e ∷ path) n m v t c r h =
      let next : Reaches (suc n) e.right = (v, r, e.keys, rw h.0 h.1) in
      chain-Reaches path (suc n) m e.right t (omega arith) next h.2

  -- Both parts of the queue: paths of length `d`, then paths of length `d + 1`.
  pub record IsLevel (d : ℕ) (near far : List Entry) (visited : List Text) : Type 0 where
    pub near_paths : Holds (λ x. IsChain graph start x.1 x.0 × (length x.1 ≡ d)) near
    pub far_paths : Holds (λ x. IsChain graph start x.1 x.0 × (length x.1 ≡ suc d)) far
    pub before : (n : ℕ) (t : Text) → n < d → Reaches n t → is_in t visited ≡ true
    pub level : (t : Text) → Reaches d t → is_in t visited || is_in t (keys near) ≡ true
    pub closed :
        (v t : Text) (k : JoinKeys)
        → is_in v visited ≡ true
        → get t (neighbours v graph) ≡ some k
        → is_in t visited || (is_in t (keys near) || is_in t (keys far)) ≡ true
    pub not_yet : is_in target visited ≡ false

  pub all_visited :
      (d : ℕ) (visited : List Text)
      → IsLevel d [] [] visited
      → (n : ℕ) (t : Text) → Reaches n t
      → is_in t visited ≡ true
  all_visited zero visited h zero t r = ground (arith, h.level t r)
  all_visited (suc d) visited h zero t r = h.before 0 t (omega arith) r
  all_visited d visited h (suc n) t r =
      ground (arith, h.closed r.0 t r.2 (all_visited d visited h n r.0 r.1) r.3)

  pub next-IsLevel :
      (d : ℕ) (far : List Entry) (visited : List Text)
      → IsLevel d [] far visited
      → IsLevel (suc d) far [] visited
  next-IsLevel d far visited h =
      let at_level : (t : Text) → Reaches d t → is_in t visited ≡ true =
        λ t r. ground (arith, h.level t r) in
      record {
        near_paths = h.far_paths;
        far_paths = tt;
        before = λ n t l r. elim (dec_lt n d) [
          | yes p ↦ h.before n t p r
          | no p ↦ at_level t (subst (λ x. Reaches x t) (omega arith) r)
        ];
        level = λ t r. ground (arith, h.closed r.0 t r.2 (at_level r.0 r.1) r.3);
        closed = λ v t k e g. ground (arith, h.closed v t k e g);
        not_yet = h.not_yet;
      }

  closed_pop :
      (current : Text) (path : List Edge) (near far : List Entry) (visited : List Text) (v t : Text)
      (k : JoinKeys)
      → (is_in v visited ≡ true
          → get t (neighbours v graph) ≡ some k
          → is_in t visited || (is_in t (current ∷ keys near) || is_in t (keys far)) ≡ true)
      → is_in v (current ∷ visited) ≡ true
      → get t (neighbours v graph) ≡ some k
      → is_in t (current ∷ visited)
          || (is_in t (keys near)
              || is_in t (
                  keys (far ++ expand (current ∷ visited) current path (neighbours current graph))))
        ≡ true
  closed_pop current path near far visited v t k c m g =
      let ns = neighbours current graph in
      let children = expand (current ∷ visited) current path ns in
      elim (Bool-cases (same v current)) [
        | inl b ↦
            let here : get t ns ≡ some k = rw (← (same_iff v current).0 b) g in
            ground (
              arith,
              is_in-keys-append t far children,
              expand-in (current ∷ visited) current t path k ns here,
            )
        | inr b ↦
            let known = λ (p : is_in v visited ≡ true). c p g in
            ground (arith, is_in-keys-append t far children, known)
      ]

  pub pop-IsLevel :
      (d : ℕ) (current : Text) (path : List Edge) (near far : List Entry) (visited : List Text)
      → IsGraph graph
      → same current target ≡ false
      → IsLevel d ((current, path) ∷ near) far visited
      → IsLevel d near
          (far ++ expand (current ∷ visited) current path (neighbours current graph))
          (current ∷ visited)
  pop-IsLevel d current path near far visited g e h =
      let ns = neighbours current graph in
      let children = expand (current ∷ visited) current path ns in
      record {
        near_paths = h.near_paths.1;
        far_paths = Holds-append _ far children h.far_paths (
            expand-paths graph start current (current ∷ visited) path d h.near_paths.0.0
              h.near_paths.0.1 ns (own_roads ns (neighbours-AreTables graph current g).0));
        before = λ n t l r. ground (arith, h.before n t l r);
        level = λ t r. ground (arith, h.level t r);
        closed = λ v t k. closed_pop current path near far visited v t k (h.closed v t k);
        not_yet = ground (arith, h.not_yet, same_iff current target, same_iff target current);
      }
