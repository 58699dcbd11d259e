-- ===== src/Tokens/Race.antt =====
-- Workers that redeem at the same time: the SELECT and the guarded UPDATE of one redemption are two
-- steps, with the other workers' steps in between. Only the UPDATE and the insert write.
use dbbuddy.Base.{
  ℕ, zero, ◌+◌, ◌≤◌, ◌≡◌, refl, sym, Bool, true, false, not, if◌then◌else◌, String, ◌=ₛ◌, eq_iff,
  ◌&&◌, Option, none, some, arith, Option-cases, Bool-cases, inl, inr, List, [], ◌∷◌,
}
use dbbuddy.Base.Equality.{string_eq}
use dbbuddy.Base.Dict.{get, get-put}
use dbbuddy.Tokens.{Table, unconsumed, is_redeemable, consumed, consume, minted, issue}

-- One write of one worker, at a time by its own clock.
pub data Write : Type 0 where
  mint :
      (raw : String) (now : ℕ) (user_id sql safety_category context_hash : String)
      (connection_id organization_id : Option String)
      → Write
  take : (id : String) (now : ℕ) → Write

module _ (hash : String → String) where
  unfoldable pub write : Write → Table → Table
  unfolding issue
  write (mint raw now u sql category c connection organization) db =
      elim (issue hash raw now u sql category c connection organization db) [
        | none ↦ db
        | some db' ↦ db'
      ]
  write (take id now) db = (consume id now db).0

  -- How many of the writes redeemed the row.
  unfoldable pub redemptions : String → List Write → Table → ℕ
  unfolding write
  redemptions id [] db = zero
  redemptions id (mint raw now u sql category c connection organization ∷ ws) db =
      redemptions id ws (write (mint raw now u sql category c connection organization) db)
  redemptions id (take j now ∷ ws) db =
      (if (j =ₛ id) && (consume j now db).1 then 1 else 0)
      + redemptions id ws (write (take j now) db)

  is_consumed : String → Table → Bool
  is_consumed id db = elim (get id db) [
    | none ↦ false
    | some row ↦ not (unconsumed row.consumed_at)
  ]

  write-is_consumed :
      (id : String) (w : Write) (db : Table)
      → is_consumed id db ≡ true
      → is_consumed id (write w db) ≡ true
  unfolding is_consumed write issue consume is_redeemable
  write-is_consumed id (mint raw now u sql category c connection organization) db h = ground (
    arith,
    eq_iff (hash raw) id,
    get-put (hash raw) id (minted now u sql category c connection organization) db,
  )
  write-is_consumed id (take j now) db h = elim (Option-cases (get j db)) [
    | inl e ↦ ground (arith, e, h)
    | inr r ↦ ground (arith, r.1, h, eq_iff j id, get-put j id (consumed now r.0) db)
  ]

  take-consumed :
      (id : String) (now : ℕ) (db : Table)
      → (consume id now db).1 ≡ true
      → is_consumed id (write (take id now) db) ≡ true
  unfolding is_consumed write consume is_redeemable
  take-consumed id now db h = elim (Option-cases (get id db)) [
    | inl e ↦ ground (arith, e, h)
    | inr r ↦ ground (arith, r.1, h, eq_iff id id, get-put id id (consumed now r.0) db)
  ]

  consumed-refused :
      (id : String) (now : ℕ) (db : Table)
      → is_consumed id db ≡ true
      → (consume id now db).1 ≡ false
  unfolding is_consumed consume is_redeemable
  consumed-refused id now db h = elim (Option-cases (get id db)) [
    | inl e ↦ ground (arith, e, h)
    | inr r ↦ ground (arith, r.1, h)
  ]

  redemptions-consumed :
      (id : String) (ws : List Write) (db : Table)
      → is_consumed id db ≡ true
      → redemptions id ws db ≡ 0
  unfolding redemptions
  redemptions-consumed id [] db h = refl
  redemptions-consumed id (mint raw now u sql category c connection organization ∷ ws) db h =
      redemptions-consumed id ws (write (mint raw now u sql category c connection organization) db)
        (write-is_consumed id (mint raw now u sql category c connection organization) db h)
  redemptions-consumed id (take j now ∷ ws) db h = ground (
    arith,
    eq_iff j id,
    consumed-refused id now db h,
    redemptions-consumed id ws (write (take j now) db) (write-is_consumed id (take j now) db h),
  )

  redemptions-taken :
      (id j : String) (now : ℕ) (ws : List Write) (db : Table)
      → (j =ₛ id) && (consume j now db).1 ≡ true
      → redemptions id ws (write (take j now) db) ≡ 0
  redemptions-taken id j now ws db h =
      let same : j ≡ id = ground (arith, eq_iff j id) in
      redemptions-consumed id ws (write (take j now) db)
        (rw (sym same) (take-consumed j now db (ground arith)))

  -- However the writes of the workers are interleaved, and whatever their clocks say, at most one
  -- of them redeems a given token.
  pub redemptions-le-one : (id : String) (ws : List Write) (db : Table) → redemptions id ws db ≤ 1
  unfolding redemptions
  redemptions-le-one id [] db = omega arith
  redemptions-le-one id (mint raw now u sql category c connection organization ∷ ws) db =
      redemptions-le-one id ws (write (mint raw now u sql category c connection organization) db)
  redemptions-le-one id (take j now ∷ ws) db =
      elim (Bool-cases ((j =ₛ id) && (consume j now db).1)) [
        | inr h ↦ rw h (omega (arith, redemptions-le-one id ws (write (take j now) db)))
        | inl h ↦ rw h (omega (arith, redemptions-taken id j now ws db h))
      ]
