-- ===== src/Joins/Related.antt =====
-- The graph that `build_relationship_graph` makes: well formed, and the same from both ends.
use dbbuddy.Base.{
  ◌≡◌, ◌≢◌, refl, sym, ap, ◌∙◌, true, false, if◌then◌else◌, ◌&&◌, Option, none, some, List, [], ◌∷◌,
  map, Text, same, same_iff, arith, Bool-cases, inl, inr,
}
use dbbuddy.Base.Equality.{text_eq}
use dbbuddy.Base.Distinct.{is_in}
use dbbuddy.Base.Dict.{get, put, keys, get-put, Holds-put, Distinct-keys-put, keys-put}
use dbbuddy.Joins.Graph.{JoinKeys, Neighbours, Graph, neighbours}
use dbbuddy.Joins.WellFormed.{IsGraph, AreTables, neighbours-AreTables}
use dbbuddy.Joins.Build.{write_edge}

abbrev pub swap : Text × Text → Text × Text
swap p = (p.1, p.0)

-- The same joins, read from the other table.
abbrev pub mirror : JoinKeys → JoinKeys
mirror k = record { from_col = k.to_col; to_col = k.from_col; alternates = map swap k.alternates }

abbrev pub mirrored : Option JoinKeys → Option JoinKeys
mirrored none = none
mirrored (some k) = some (mirror k)

-- Between two tables the graph has the same joins from either.
abbrev pub IsMirrored : Graph → Type 0
IsMirrored graph =
    (t u : Text) → t ≢ u → get u (neighbours t graph) ≡ mirrored (get t (neighbours u graph))

swapped_twice : (ps : List (Text × Text)) → map swap (map swap ps) ≡ ps
swapped_twice [] = refl
swapped_twice (p ∷ ps) = ap (λ qs. p ∷ qs) (swapped_twice ps)

mirror-mirror : (k : JoinKeys) → mirror (mirror k) ≡ k
mirror-mirror k = ap (λ ps. record k { alternates = ps }) (swapped_twice k.alternates)

-- Two updates that write the same joins from either end.
abbrev pub AreMirrors : (f g : Option JoinKeys → JoinKeys) → Type 0
AreMirrors f g = (o : Option JoinKeys) → g (mirrored o) ≡ mirror (f o)

neighbours-put :
    (t v : Text) (ns : Neighbours) (graph : Graph)
    → neighbours v (put t ns graph) ≡ (if same t v then ns else neighbours v graph)
neighbours-put t v ns graph = ground (arith, get-put t v ns graph)

get-neighbours-write_edge :
    (f : Option JoinKeys → JoinKeys) (t u v w : Text) (graph : Graph)
    → get w (neighbours v (write_edge f t u graph)) ≡ (
        if same t v && same u w
        then some (f (get u (neighbours t graph)))
        else get w (neighbours v graph))
unfolding write_edge
get-neighbours-write_edge f t u v w graph =
    let ns = neighbours t graph in
    ground (
      arith,
      neighbours-put t v (put u (f (get u ns)) ns) graph,
      get-put u w (f (get u ns)) ns,
      same_iff t v,
    )

pub write_edge-IsGraph :
    (f : Option JoinKeys → JoinKeys) (t u : Text) (graph : Graph)
    → is_in t (keys graph) ≡ true
    → is_in u (keys graph) ≡ true
    → IsGraph graph
    → (keys (write_edge f t u graph) ≡ keys graph) × IsGraph (write_edge f t u graph)
unfolding write_edge
write_edge-IsGraph f t u graph ht hu g =
    let ns = neighbours t graph in
    let k = f (get u ns) in
    let old = neighbours-AreTables graph t g in
    let whole = keys-put t (put u k ns) graph ht in
    let fresh : AreTables (keys graph) (put u k ns) = (
      Distinct-keys-put u k ns old.0,
      Holds-put (λ n. is_in n.0 (keys graph) ≡ true) u k ns hu old.1,
    ) in
    (
      whole,
      record {
        tables = rw whole g.tables;
        neighbours =
            rw whole
              (Holds-put (λ e. AreTables (keys graph) e.1) t (put u k ns) graph fresh g.neighbours);
      },
    )

module _ (f g : Option JoinKeys → JoinKeys) (t u : Text) (graph : Graph) where
  -- Both directions of one join.
  abbrev pub linked : Graph
  linked = write_edge g u t (write_edge f t u graph)

  module _ (both : AreMirrors f g) (h : IsMirrored graph) where
    link-forward : t ≢ u → get u (neighbours t linked) ≡ some (f (get u (neighbours t graph)))
    link-forward d = ground (
      arith,
      get-neighbours-write_edge g u t t u (write_edge f t u graph),
      get-neighbours-write_edge f t u t u graph,
      same_iff t t,
      same_iff u u,
      same_iff u t,
    )

    link-back : t ≢ u → get t (neighbours u linked) ≡ some (mirror (f (get u (neighbours t graph))))
    link-back d = ground (
      arith,
      get-neighbours-write_edge g u t u t (write_edge f t u graph),
      get-neighbours-write_edge f t u u t graph,
      both (get u (neighbours t graph)),
      h u t (λ e. d (sym e)),
      same_iff t t,
      same_iff u u,
      same_iff t u,
    )

    link-others :
        (v w : Text)
        → same t v && same u w ≡ false
        → same u v && same t w ≡ false
        → get w (neighbours v linked) ≡ get w (neighbours v graph)
    link-others v w a b = ground (
      arith,
      get-neighbours-write_edge g u t v w (write_edge f t u graph),
      get-neighbours-write_edge f t u v w graph,
    )

    pub link-IsMirrored : IsMirrored linked
    link-IsMirrored v w d = elim (Bool-cases (same t v && same u w)) [
      | inl a ↦
          let ends : (t ≡ v) × (u ≡ w) = ground (arith, same_iff t v, same_iff u w) in
          let apart : t ≢ u = λ e. d (sym ends.0 ∙ (e ∙ ends.1)) in
          rw (← ends.0, ← ends.1)
            (link-forward apart
              ∙ (ap some (sym (mirror-mirror (f (get u (neighbours t graph)))))
                  ∙ ap mirrored (sym (link-back apart))))
      | inr a ↦ elim (Bool-cases (same u v && same t w)) [
        | inl b ↦
            let ends : (u ≡ v) × (t ≡ w) = ground (arith, same_iff u v, same_iff t w) in
            let apart : t ≢ u = λ e. d (sym ends.0 ∙ (sym e ∙ ends.1)) in
            rw (← ends.0, ← ends.1) (link-back apart ∙ ap mirrored (sym (link-forward apart)))
        | inr b ↦
            link-others v w a b
            ∙ (h v w d ∙ ap mirrored (sym (link-others w v (ground arith) (ground arith))))
      ]
    ]
