-- ===== src/Joins/Reconcile.antt =====
-- `_reconcile_joins` adds the joins that the finished plan still needs, and changes none.
use dbbuddy.Base.{
  ◌≡◌, refl, sym, ap, ◌∙◌, subst, Bool, true, false, not, Option, some, List, [], ◌∷◌, ◌++◌, keep,
  append-nil, append_assoc, Text, empty, lower, same, same_iff, arith, Bool-cases, inl, inr,
}
use dbbuddy.Base.Equality.{text_eq}
use dbbuddy.Base.Distinct.{is_in}
use dbbuddy.Joins.Graph.{Graph, Edge, Join, join_of, find_join_path}
use dbbuddy.Joins.WellFormed.{IsGraph}
use dbbuddy.Joins.Chain.{IsChain, IsShortest}
use dbbuddy.Joins.Path.{find_join_path-IsShortest}
use dbbuddy.Joins.Plan.{
  Plan, tables_referenced_by_plan, scope_of, join_scope, add_path, add_paths, reconcile_joins,
}
use dbbuddy.Joins.Resolve.{IsReachable, empty-lower, scope_after-append}
use dbbuddy.Joins.Connected.{
  left_of, right_of, AreConnected, Within, scope_after, AreConnected-append, scope_after-wider,
}

module _ (base : Text) where
  abbrev start : List Text
  start = lower base ∷ []

  -- The joins so far, the tables that count as in scope, and the joins that were there first.
  record IsGrown (first joins : List Join) (scope : List Text) : Type 0 where
    connected : AreConnected start joins
    inside : Within scope (scope_after start joins)
    base_in : is_in (lower base) scope ≡ true
    added : (more : List Join) × (joins ≡ first ++ more)

  edge-IsGrown :
      (first joins : List Join) (scope : List Text) (e : Edge)
      → IsGrown first joins scope
      → is_in (lower e.left) scope ≡ true
      → IsGrown first (joins ++ join_of e ∷ []) (lower e.right ∷ scope)
  edge-IsGrown first joins scope e i h = record {
    connected =
        AreConnected-append start joins (join_of e ∷ []) i.connected
          (i.inside (lower e.left) h, tt);
    inside =
        λ t k. rw (scope_after-append start joins (join_of e ∷ [])) (ground (arith, i.inside t, k));
    base_in = ground (arith, i.base_in);
    added = (
      i.added.0 ++ join_of e ∷ [],
      ap (λ js. js ++ join_of e ∷ []) i.added.1 ∙ append_assoc first i.added.0 (join_of e ∷ []),
    );
  }

  add_path-IsGrown :
      (graph : Graph) (first joins : List Join) (scope : List Text) (path : List Edge)
      (left target : Text)
      → IsGrown first joins scope
      → IsChain graph left path target
      → is_in (lower left) scope ≡ true
      → IsGrown first (add_path path joins scope).0 (add_path path joins scope).1
        × Within scope (add_path path joins scope).1
        × (is_in (lower target) (add_path path joins scope).1 ≡ true)
  unfolding add_path
  add_path-IsGrown graph first joins scope [] left target i c h =
      (i, λ t k. k, subst (λ t. is_in (lower t) scope ≡ true) c h)
  add_path-IsGrown graph first joins scope (e ∷ path) left target i c h =
      let from : is_in (lower e.left) scope ≡ true =
        subst (λ t. is_in (lower t) scope ≡ true) c.0 h in
      elim (Bool-cases (is_in (lower e.right) scope)) [
        | inl b ↦
            rw (b, add_path) (add_path-IsGrown graph first joins scope path e.right target i c.2 b)
        | inr b ↦
            let grown = edge-IsGrown first joins scope e i from in
            let (rest, wider, there) =
              add_path-IsGrown graph first (joins ++ join_of e ∷ []) (lower e.right ∷ scope) path
                e.right target grown c.2
                (ground (arith, same_iff (lower e.right) (lower e.right))) in
            rw (b, add_path) (rest, λ t k. wider t (ground (arith, k)), there)
      ]

  path_step :
      (graph : Graph) (first joins : List Join) (scope : List Text) (table : Text)
      (path : List Edge)
      → IsGrown first joins scope
      → IsShortest graph base table path
      → IsGrown first (add_path path joins scope).0 (add_path path joins scope).1
        × Within scope (add_path path joins scope).1
        × (IsReachable graph base table → is_in (lower table) (add_path path joins scope).1 ≡ true)
  unfolding add_path
  path_step graph first joins scope table path i (inl s) =
      let (grown, wider, there) =
        add_path-IsGrown graph first joins scope path base table i s.0 i.base_in in
      (grown, wider, λ r. there)
  path_step graph first joins scope table path i (inr s) =
      rw s.0 (i, λ t k. k, λ r. absurd (s.1 r.0 r.1))

  -- What adding the paths to the missing tables gives.
  abbrev AddsPaths : Graph → List Join → List Text → List Text → Option (List Join) → Type 0
  AddsPaths graph first missing scope found =
      (result : List Join) × (seen : List Text) × (found ≡ some result)
      × IsGrown first result seen
      × Within scope seen
      × ((t : Text)
          → is_in t missing ≡ true
          → IsReachable graph base t
          → is_in (lower t) seen ≡ true)

  module _ (graph : Graph) (g : IsGraph graph) where
    add_paths-cons :
        (table : Text) (missing : List Text) (joins : List Join) (scope : List Text)
        (path : List Edge)
        → find_join_path graph base table ≡ some path
        → add_paths graph base (table ∷ missing) joins scope
          ≡ add_paths graph base missing (add_path path joins scope).0 (add_path path joins scope).1
    unfolding add_paths
    add_paths-cons table missing joins scope path h = rw (h, add_paths)

    add_paths-AddsPaths :
        (first : List Join) (missing : List Text) (joins : List Join) (scope : List Text)
        → IsGrown first joins scope
        → AddsPaths graph first missing scope (add_paths graph base missing joins scope)
    unfolding add_paths
    add_paths-AddsPaths first [] joins scope i = (joins, scope, refl, i, λ t h. h, λ t h r. cc)
    add_paths-AddsPaths first (table ∷ missing) joins scope i =
        let (path, found, shortest) = find_join_path-IsShortest graph base table g in
        let (grown, wider, there) = path_step graph first joins scope table path i shortest in
        let more = add_path path joins scope in
        let (result, seen, e, final, w, brings) =
          add_paths-AddsPaths first missing more.0 more.1 grown in
        (
          result,
          seen,
          add_paths-cons table missing joins scope path found ∙ e,
          final,
          λ t h. w t (wider t h),
          λ t h r. elim (Bool-cases (same t table)) [
            | inl b ↦
                let named : table ≡ t = ground (arith, b, same_iff t table) in
                let reached = there (subst (IsReachable graph base) (sym named) r) in
                subst (λ x. is_in (lower x) seen ≡ true) named (w (lower table) reached)
            | inr b ↦ brings t (ground (arith, b, h)) r
          ],
        )

-- The tables that a plan's joins mention are those that they bring in or start from.
scope_of-Within :
    (scope : List Text) (joins : List Join)
    → AreConnected scope joins
    → Within (scope_of joins) (scope_after scope joins)
unfolding scope_of
scope_of-Within scope [] c t h = cc
scope_of-Within scope (join ∷ joins) c t h = ground (
  arith,
  c.0,
  h,
  scope_after-wider (right_of join ∷ scope) joins t,
  scope_of-Within (right_of join ∷ scope) joins c.1 t,
  same_iff t (left_of join),
)

join_scope-Within :
    (plan : Plan)
    → AreConnected (lower plan.base_table ∷ []) plan.joins
    → Within (join_scope plan) (scope_after (lower plan.base_table ∷ []) plan.joins)
unfolding join_scope
join_scope-Within plan c t h = ground (
  arith,
  h,
  scope_after-wider (lower plan.base_table ∷ []) plan.joins t,
  scope_of-Within (lower plan.base_table ∷ []) plan.joins c t,
)

is_in-keep :
    (p : Text → Bool) (t : Text) (ts : List Text)
    → is_in t ts ≡ true
    → p t ≡ true
    → is_in t (keep p ts) ≡ true
is_in-keep p t [] h k = h
is_in-keep p t (u ∷ ts) h k = ground (arith, is_in-keep p t ts, same_iff t u)

base_in_scope :
    (plan : Plan)
    → empty plan.base_table ≡ false
    → is_in (lower plan.base_table) (join_scope plan) ≡ true
unfolding join_scope
base_in_scope plan h =
    rw (empty-lower plan.base_table, h)
      (ground (arith, same_iff (lower plan.base_table) (lower plan.base_table)))

reconcile-add_paths :
    (graph : Graph) (plan : Plan) (joins : List Join)
    → empty plan.base_table ≡ false
    → add_paths graph plan.base_table
        (keep (λ t. not (is_in (lower t) (join_scope plan))) (tables_referenced_by_plan plan []))
        plan.joins
        (join_scope plan)
      ≡ some joins
    → reconcile_joins graph plan ≡ some (record plan { joins = joins })
unfolding reconcile_joins
reconcile-add_paths graph plan joins h e = rw (h, e, reconcile_joins)

-- In a graph that names every table once, whose tables have each neighbour once and only tables as
-- neighbours, and for a plan that has a base table and whose every join starts from it or from a
-- table that an earlier join brings in: `_reconcile_joins` returns a plan. Its joins are the old
-- ones as they were, then new ones, and every join still starts so. Every table that a clause
-- refers to and that a path of the graph leads to from the base table is in scope after them.
pub reconcile_joins_lem :
    (graph : Graph) (plan : Plan)
    → IsGraph graph
    → empty plan.base_table ≡ false
    → AreConnected (lower plan.base_table ∷ []) plan.joins
    → (joins : List Join) × (more : List Join) × (reconcile_joins graph plan
        ≡ some (record plan { joins = joins }))
      × (joins ≡ plan.joins ++ more)
      × AreConnected (lower plan.base_table ∷ []) joins
      × ((t : Text)
          → is_in t (tables_referenced_by_plan plan []) ≡ true
          → IsReachable graph plan.base_table t
          → is_in (lower t) (scope_after (lower plan.base_table ∷ []) joins) ≡ true)
reconcile_joins_lem graph plan g b c =
    let base = plan.base_table in
    let scope = join_scope plan in
    let referenced = tables_referenced_by_plan plan [] in
    let missing = keep (λ t. not (is_in (lower t) scope)) referenced in
    let first : IsGrown base plan.joins plan.joins scope = record {
      connected = c;
      inside = join_scope-Within plan c;
      base_in = base_in_scope plan b;
      added = ([], sym (append-nil plan.joins));
    } in
    let (joins, seen, e, final, w, brings) =
      add_paths-AddsPaths base graph g plan.joins missing plan.joins scope first in
    (
      joins,
      final.added.0,
      reconcile-add_paths graph plan joins b e,
      final.added.1,
      final.connected,
      λ t h r. final.inside (lower t) (elim (Bool-cases (is_in (lower t) scope)) [
        | inl there ↦ w (lower t) there
        | inr gone ↦
            brings t (is_in-keep (λ u. not (is_in (lower u) scope)) t referenced h (ap not gone)) r
      ]),
    )
