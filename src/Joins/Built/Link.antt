-- ===== src/Joins/Built/Link.antt =====
-- What holds of the graph all the time while it is built, and that a join written from both ends
-- keeps it.
use dbbuddy.Base.{
  ◌≡◌, refl, sym, ap, ◌∙◌, Bool, true, false, if◌then◌else◌, Option, none, some, List, [], ◌∷◌,
  ◌++◌, map, Text, Holds, arith,
}
use dbbuddy.Base.Equality.{text_eq}
use dbbuddy.Base.Distinct.{is_in}
use dbbuddy.Base.Dict.{keys, or_default}
use dbbuddy.Joins.Graph.{JoinKeys, Graph}
use dbbuddy.Joins.WellFormed.{IsGraph}
use dbbuddy.Joins.Build.{plain, has_pair, with_pair, write_edge, default_edge}
use dbbuddy.Joins.Related.{
  swap, IsMirrored, AreMirrors, write_edge-IsGraph, linked, link-IsMirrored,
}

has_pair-swapped :
    (col ref_col : Text) (ps : List (Text × Text))
    → has_pair ref_col col (map swap ps) ≡ has_pair col ref_col ps
unfolding has_pair
has_pair-swapped col ref_col [] = refl
has_pair-swapped col ref_col (p ∷ ps) = ground (arith, has_pair-swapped col ref_col ps)

swapped-append : (ps qs : List (Text × Text)) → map swap (ps ++ qs) ≡ map swap ps ++ map swap qs
swapped-append [] qs = refl
swapped-append (p ∷ ps) qs = ap (λ rs. swap p ∷ rs) (swapped-append ps qs)

pub with_pair-AreMirrors :
    (col ref_col : Text) → AreMirrors (with_pair col ref_col) (with_pair ref_col col)
unfolding with_pair
with_pair-AreMirrors col ref_col none = refl
with_pair-AreMirrors col ref_col (some k) = ground (
  arith,
  has_pair-swapped col ref_col k.alternates,
  swapped-append k.alternates ((col, ref_col) ∷ []),
)

default-AreMirrors :
    (col ref_col : Text)
    → AreMirrors (or_default (plain col ref_col)) (or_default (plain ref_col col))
default-AreMirrors col ref_col none = refl
default-AreMirrors col ref_col (some k) = refl

-- What holds of the graph all the time while it is built.
pub record IsRelated (tables : List Text) (graph : Graph) : Type 0 where
  pub same_tables : keys graph ≡ tables
  pub is_graph : IsGraph graph
  pub is_mirrored : IsMirrored graph

pub link-IsRelated :
    (f g : Option JoinKeys → JoinKeys) (t u : Text) (tables : List Text) (graph : Graph)
    → AreMirrors f g
    → is_in t tables ≡ true
    → is_in u tables ≡ true
    → IsRelated tables graph
    → IsRelated tables (linked f g t u graph)
link-IsRelated f g t u tables graph both ht hu r =
    let there : (x : Text) → is_in x tables ≡ true → is_in x (keys graph) ≡ true =
      λ x e. ap (is_in x) r.same_tables ∙ e in
    let one = write_edge-IsGraph f t u graph (there t ht) (there u hu) r.is_graph in
    let still : (x : Text)
        → is_in x tables ≡ true
        → is_in x (keys (write_edge f t u graph)) ≡ true =
      λ x e. ap (is_in x) one.0 ∙ there x e in
    let two = write_edge-IsGraph g u t (write_edge f t u graph) (still u hu) (still t ht) one.1 in
    record {
      same_tables = two.0 ∙ (one.0 ∙ r.same_tables);
      is_graph = two.1;
      is_mirrored = link-IsMirrored f g t u graph both r.is_mirrored;
    }

pub if-IsRelated :
    (tables : List Text) (b : Bool) (x y : Graph)
    → (b ≡ true → IsRelated tables x)
    → (b ≡ false → IsRelated tables y)
    → IsRelated tables (if b then x else y)
if-IsRelated tables true x y h k = h refl
if-IsRelated tables false x y h k = k refl

pub option-IsRelated :
    (tables : List Text) (o : Option Text) (x : Graph) (y : Text → Graph)
    → IsRelated tables x
    → ((t : Text) → o ≡ some t → IsRelated tables (y t))
    → IsRelated tables (elim o [ none ↦ x | some t ↦ y t ])
option-IsRelated tables none x y h k = h
option-IsRelated tables (some t) x y h k = k t refl

pub if-Holds {ℓ κ} :
    {A : Type ℓ} (P : A → Type κ) (b : Bool) (x y : List A)
    → (b ≡ true → Holds P x)
    → Holds P y
    → Holds P (if b then x else y)
if-Holds P true x y h k = h refl
if-Holds P false x y h k = k

pub else_case :
    (b : Bool) (o : Option Text) (t : Text) → (if b then none else o) ≡ some t → o ≡ some t
else_case true o t h = cc
else_case false o t h = h

module _ (tables : List Text) where
  abbrev pub IsTable : Text → Type 0
  IsTable t = is_in t tables ≡ true

  pub still-IsTable :
      (graph : Graph) (t : Text) → IsRelated tables graph → is_in t (keys graph) ≡ true → IsTable t
  still-IsTable graph t r h = ap (is_in t) (sym r.same_tables) ∙ h

  pub default-IsRelated :
      (t u col ref_col : Text) (graph : Graph)
      → IsTable t
      → IsTable u
      → IsRelated tables graph
      → IsRelated tables (default_edge u t ref_col col (default_edge t u col ref_col graph))
  unfolding default_edge
  default-IsRelated t u col ref_col graph ht hu r =
      link-IsRelated (or_default (plain col ref_col)) (or_default (plain ref_col col)) t u tables
        graph (default-AreMirrors col ref_col) ht hu r
