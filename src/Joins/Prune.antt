-- ===== src/Joins/Prune.antt =====
-- `_dedupe_joins` and `_prune_unused_joins` leave every join that a clause needs, and no other.
use dbbuddy.Base.{
  ◌≡◌, ◌≢◌, refl, sym, ap, ◌∙◌, true, false, if◌then◌else◌, ◌||◌, List, [], ◌∷◌, map, Text, empty,
  lower, same_iff, Holds, arith, Bool-cases, inl, inr,
}
use dbbuddy.Base.Equality.{text_eq}
use dbbuddy.Base.Distinct.{Distinct, is_in}
use dbbuddy.Joins.Graph.{Join}
use dbbuddy.Joins.Plan.{Plan, tables_referenced_by_plan, dedupe_joins, prune, prune_unused_joins}
use dbbuddy.Joins.Connected.{
  left_of, right_of, AreConnected, HaveTables, Within, Within-cons, AreConnected-Within,
}

abbrev pub rights : List Join → List Text
rights = map right_of

abbrev pub lefts : List Join → List Text
lefts = map left_of

dedupe-kept :
    (seen : List Text) (join : Join) (joins : List Join)
    → empty (right_of join) ≡ false
    → is_in (right_of join) seen ≡ false
    → dedupe_joins seen (join ∷ joins) ≡ join ∷ dedupe_joins (right_of join ∷ seen) joins
unfolding dedupe_joins
dedupe-kept seen join joins h k = rw (h, k, dedupe_joins)

dedupe-skipped :
    (seen : List Text) (join : Join) (joins : List Join)
    → is_in (right_of join) seen ≡ true
    → dedupe_joins seen (join ∷ joins) ≡ dedupe_joins seen joins
unfolding dedupe_joins
dedupe-skipped seen join joins h = ground arith

dedupe-AreConnected :
    (scope seen : List Text) (joins : List Join)
    → Within seen scope
    → HaveTables joins
    → AreConnected scope joins
    → AreConnected scope (dedupe_joins seen joins)
unfolding dedupe_joins
dedupe-AreConnected scope seen [] w n c = tt
dedupe-AreConnected scope seen (join ∷ joins) w n c =
    elim (Bool-cases (is_in (right_of join) seen)) [
      | inl b ↦ rw (dedupe-skipped seen join joins b) (
          dedupe-AreConnected scope seen joins w n.1 (
            AreConnected-Within (right_of join ∷ scope) scope joins
              (λ t h. ground (arith, w (right_of join) b, same_iff t (right_of join), h)) c.1))
      | inr b ↦ rw (dedupe-kept seen join joins n.0 b) (
        c.0,
        dedupe-AreConnected (right_of join ∷ scope) (right_of join ∷ seen) joins
            (Within-cons (right_of join) seen scope w) n.1 c.1,
      )
    ]

-- No join leads to a table that is seen already.
dedupe-unseen :
    (t : Text) (seen : List Text) (joins : List Join)
    → HaveTables joins
    → is_in t seen ≡ true
    → Holds (λ u. t ≢ u) (rights (dedupe_joins seen joins))
unfolding dedupe_joins
dedupe-unseen t seen [] n h = tt
dedupe-unseen t seen (join ∷ joins) n h = elim (Bool-cases (is_in (right_of join) seen)) [
  | inl b ↦ rw (dedupe-skipped seen join joins b) (dedupe-unseen t seen joins n.1 h)
  | inr b ↦ rw (dedupe-kept seen join joins n.0 b) (
    (λ e. ground (arith, b, h, ap (λ u. is_in u seen) e)),
    dedupe-unseen t (right_of join ∷ seen) joins n.1 (ground (arith, h)),
  )
]

dedupe-Distinct :
    (seen : List Text) (joins : List Join)
    → HaveTables joins
    → Distinct (rights (dedupe_joins seen joins))
unfolding dedupe_joins
dedupe-Distinct seen [] n = tt
dedupe-Distinct seen (join ∷ joins) n = elim (Bool-cases (is_in (right_of join) seen)) [
  | inl b ↦ rw (dedupe-skipped seen join joins b) (dedupe-Distinct seen joins n.1)
  | inr b ↦ rw (dedupe-kept seen join joins n.0 b) (
    dedupe-unseen (right_of join) (right_of join ∷ seen) joins n.1
        (ground (arith, same_iff (right_of join) (right_of join))),
    dedupe-Distinct (right_of join ∷ seen) joins n.1,
  )
]

dedupe-HaveTables :
    (seen : List Text) (joins : List Join) → HaveTables joins → HaveTables (dedupe_joins seen joins)
unfolding dedupe_joins
dedupe-HaveTables seen [] n = tt
dedupe-HaveTables seen (join ∷ joins) n = elim (Bool-cases (is_in (right_of join) seen)) [
  | inl b ↦ rw (dedupe-skipped seen join joins b) (dedupe-HaveTables seen joins n.1)
  | inr b ↦
      rw (dedupe-kept seen join joins n.0 b)
        (n.0, dedupe-HaveTables (right_of join ∷ seen) joins n.1)
]

dedupe-in :
    (t : Text) (seen : List Text) (joins : List Join)
    → HaveTables joins
    → is_in t seen ≡ false
    → is_in t (rights joins) ≡ true
    → is_in t (rights (dedupe_joins seen joins)) ≡ true
unfolding dedupe_joins
dedupe-in t seen [] n h k = k
dedupe-in t seen (join ∷ joins) n h k = elim (Bool-cases (is_in (right_of join) seen)) [
  | inl b ↦
      rw (dedupe-skipped seen join joins b)
        (dedupe-in t seen joins n.1 h (ground (arith, same_iff t (right_of join), k)))
  | inr b ↦
      rw (dedupe-kept seen join joins n.0 b)
        (ground (arith, dedupe-in t (right_of join ∷ seen) joins n.1, h, k))
]

prune-kept :
    (r : List Text) (join : Join) (joins : List Join)
    → is_in (right_of join) (prune r joins).1 ≡ true
    → prune r (join ∷ joins) ≡ (
      join ∷ (prune r joins).0,
      if empty (left_of join) then (prune r joins).1 else left_of join ∷ (prune r joins).1,
    )
unfolding prune
prune-kept r join joins h = rw (h, prune)

prune-dropped :
    (r : List Text) (join : Join) (joins : List Join)
    → is_in (right_of join) (prune r joins).1 ≡ false
    → prune r (join ∷ joins) ≡ prune r joins
unfolding prune
prune-dropped r join joins h = rw (h, prune)

prune-wider : (r : List Text) (joins : List Join) → Within r (prune r joins).1
unfolding prune
prune-wider r [] t h = h
prune-wider r (join ∷ joins) t h = elim (Bool-cases (is_in (right_of join) (prune r joins).1)) [
  | inl b ↦ rw (prune-kept r join joins b) (ground (arith, prune-wider r joins t h))
  | inr b ↦ rw (prune-dropped r join joins b) (prune-wider r joins t h)
]

-- Each table that is needed is referenced, or a join that is kept starts from it.
prune-needed :
    (r : List Text) (joins : List Join) (t : Text)
    → is_in t (prune r joins).1 ≡ true
    → is_in t r || is_in t (lefts (prune r joins).0) ≡ true
unfolding prune
prune-needed r [] t h = ground (arith, h)
prune-needed r (join ∷ joins) t h = elim (Bool-cases (is_in (right_of join) (prune r joins).1)) [
  | inl b ↦
      let known = ap (λ (x : List Join × List Text). is_in t x.1) (prune-kept r join joins b) in
      rw (prune-kept r join joins b) (ground (arith, sym known ∙ h, prune-needed r joins t))
  | inr b ↦
      rw (prune-dropped r join joins b)
        (prune-needed r joins t (rw (← prune-dropped r join joins b) h))
]

abbrev Starts : List Text → Join → Type 0
Starts needed join = empty (left_of join) || is_in (left_of join) needed ≡ true

Starts-wider :
    (ts us : List Text) (joins : List Join)
    → Within ts us
    → Holds (Starts ts) joins
    → Holds (Starts us) joins
Starts-wider ts us [] w h = tt
Starts-wider ts us (join ∷ joins) w h =
    (ground (arith, h.0, w (left_of join)), Starts-wider ts us joins w h.1)

prune-Starts :
    (r : List Text) (joins : List Join) → Holds (Starts (prune r joins).1) (prune r joins).0
unfolding prune
prune-Starts r [] = tt
prune-Starts r (join ∷ joins) = elim (Bool-cases (is_in (right_of join) (prune r joins).1)) [
  | inl b ↦
      let needed = (prune r joins).1 in
      let more : List Text = if empty (left_of join) then needed else left_of join ∷ needed in
      rw (prune-kept r join joins b) (
        ground (arith, same_iff (left_of join) (left_of join)),
        Starts-wider needed more (prune r joins).0 (λ t h. ground (arith, h))
            (prune-Starts r joins),
      )
  | inr b ↦ rw (prune-dropped r join joins b) (prune-Starts r joins)
]

AreConnected-unneeded :
    (x : Text) (needed scope : List Text) (joins : List Join)
    → empty x ≡ false
    → is_in x needed ≡ false
    → Holds (Starts needed) joins
    → AreConnected (x ∷ scope) joins
    → AreConnected scope joins
AreConnected-unneeded x needed scope [] e n s c = tt
AreConnected-unneeded x needed scope (join ∷ joins) e n s c = (
  ground (arith, s.0, c.0, same_iff (left_of join) x),
  AreConnected-unneeded x needed (right_of join ∷ scope) joins e n s.1 (
      AreConnected-Within (right_of join ∷ x ∷ scope) (x ∷ right_of join ∷ scope) joins
        (λ t h. ground (arith, h)) c.1),
)

prune-AreConnected :
    (r scope : List Text) (joins : List Join)
    → HaveTables joins
    → AreConnected scope joins
    → AreConnected scope (prune r joins).0
unfolding prune
prune-AreConnected r scope [] n c = tt
prune-AreConnected r scope (join ∷ joins) n c =
    let rest = prune-AreConnected r (right_of join ∷ scope) joins n.1 c.1 in
    elim (Bool-cases (is_in (right_of join) (prune r joins).1)) [
      | inl b ↦ rw (prune-kept r join joins b) (c.0, rest)
      | inr b ↦ rw (prune-dropped r join joins b) (
          AreConnected-unneeded (right_of join) (prune r joins).1 scope (prune r joins).0 n.0 b
            (prune-Starts r joins) rest)
    ]

prune-in :
    (r : List Text) (joins : List Join) (t : Text)
    → is_in t r ≡ true
    → is_in t (rights joins) ≡ true
    → is_in t (rights (prune r joins).0) ≡ true
unfolding prune
prune-in r [] t h k = k
prune-in r (join ∷ joins) t h k = elim (Bool-cases (is_in (right_of join) (prune r joins).1)) [
  | inl b ↦ rw (prune-kept r join joins b) (ground (arith, k, prune-in r joins t h))
  | inr b ↦ rw (prune-dropped r join joins b) (
      prune-in r joins t h
        (ground (arith, k, b, prune-wider r joins t h, same_iff t (right_of join))))
]

Holds-prune :
    (Q : Text → Type 0) (r : List Text) (joins : List Join)
    → Holds Q (rights joins)
    → Holds Q (rights (prune r joins).0)
unfolding prune
Holds-prune Q r [] h = h
Holds-prune Q r (join ∷ joins) h = elim (Bool-cases (is_in (right_of join) (prune r joins).1)) [
  | inl b ↦ rw (prune-kept r join joins b) (h.0, Holds-prune Q r joins h.1)
  | inr b ↦ rw (prune-dropped r join joins b) (Holds-prune Q r joins h.1)
]

prune-Distinct :
    (r : List Text) (joins : List Join)
    → Distinct (rights joins)
    → Distinct (rights (prune r joins).0)
unfolding prune
prune-Distinct r [] h = h
prune-Distinct r (join ∷ joins) h = elim (Bool-cases (is_in (right_of join) (prune r joins).1)) [
  | inl b ↦
      rw (prune-kept r join joins b)
        (Holds-prune (λ u. right_of join ≢ u) r joins h.0, prune-Distinct r joins h.1)
  | inr b ↦ rw (prune-dropped r join joins b) (prune-Distinct r joins h.1)
]

-- Each join is to a referenced table, or a later join starts from the table that it brings in.
abbrev pub AreNeeded : (referenced : List Text) → List Join → Type 0
AreNeeded referenced [] = Unit
AreNeeded referenced (join ∷ joins) =
    (is_in (right_of join) referenced || is_in (right_of join) (lefts joins) ≡ true)
    × AreNeeded referenced joins

prune-AreNeeded : (r : List Text) (joins : List Join) → AreNeeded r (prune r joins).0
unfolding prune
prune-AreNeeded r [] = tt
prune-AreNeeded r (join ∷ joins) = elim (Bool-cases (is_in (right_of join) (prune r joins).1)) [
  | inl b ↦
      rw (prune-kept r join joins b)
        (prune-needed r joins (right_of join) b, prune-AreNeeded r joins)
  | inr b ↦ rw (prune-dropped r join joins b) (prune-AreNeeded r joins)
]

-- The tables that the clauses of a plan refer to, and its base table.
abbrev pub referenced_by : Plan → List Text
referenced_by plan = lower plan.base_table ∷ map lower (tables_referenced_by_plan plan [])

-- Where each join of a plan names its table and starts from the base table or one that an earlier
-- join brings in, `_prune_unused_joins` leaves joins of which that still holds. No table is
-- joined twice. Every table that a clause refers to and that was joined is still joined, and every
-- join that is left is to the base table, to a table that a clause refers to, or to one that a
-- later join starts from.
pub prune_unused_joins_lem :
    (plan : Plan)
    → HaveTables plan.joins
    → AreConnected (lower plan.base_table ∷ []) plan.joins
    → AreConnected (lower plan.base_table ∷ []) (prune_unused_joins plan).joins
      × Distinct (rights (prune_unused_joins plan).joins)
      × ((t : Text)
          → is_in t (referenced_by plan) ≡ true
          → is_in t (rights plan.joins) ≡ true
          → is_in t (rights (prune_unused_joins plan).joins) ≡ true)
      × AreNeeded (referenced_by plan) (prune_unused_joins plan).joins
unfolding prune_unused_joins
prune_unused_joins_lem plan n c =
    let r = referenced_by plan in
    let joins = dedupe_joins [] plan.joins in
    (
      prune-AreConnected r (lower plan.base_table ∷ []) joins (dedupe-HaveTables [] plan.joins n)
          (dedupe-AreConnected (lower plan.base_table ∷ []) [] plan.joins (λ t h. cc) n c),
      prune-Distinct r joins (dedupe-Distinct [] plan.joins n),
      λ t h k. prune-in r joins t h (dedupe-in t [] plan.joins n refl k),
      prune-AreNeeded r joins,
    )
