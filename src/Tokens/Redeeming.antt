-- ===== src/Tokens/Redeeming.antt =====
-- When a token is redeemed, with what result, and what a refusal leaves.
use dbbuddy.Base.{
  ℕ, ◌+◌, ◌<◌, ◌≡◌, ◌⊎◌, refl, true, false, String, ◌=ₛ◌, eq_iff, Option, none, some, arith,
  Option-cases, Bool-cases, inl, inr, ap,
}
use dbbuddy.Base.Equality.{string_eq}
use dbbuddy.Base.Dict.{get, put, get-put}
use dbbuddy.Tokens.{
  ExecutionToken, Table, token_ttl, Redemption, redeemed, token_expired_or_used, unconsumed,
  is_redeemable, consumed, consume, minted, issue, redeem,
}

-- The row may be redeemed by this user against this target at this time.
pub record Grants (row : ExecutionToken) (user_id context_hash : String) (now : ℕ) : Type 0 where
  pub same_user : row.user_id ≡ user_id
  pub same_context : row.context_hash ≡ context_hash
  pub unused : row.consumed_at ≡ none
  pub unexpired : now < row.expires_at

abbrev pub IsRedeemed : Redemption → Type 0
IsRedeemed (redeemed row) = Unit
IsRedeemed _ = ⊥

self_eq : (s : String) → (s =ₛ s) ≡ true
self_eq s = ground (arith, eq_iff s s)

redeemable_lem :
    (row : ExecutionToken) (u c : String) (now : ℕ)
    → Grants row u c now
    → is_redeemable now row ≡ true
unfolding is_redeemable
redeemable_lem row u c now g = rw g.unused (ground (arith, g.unexpired))

unconsumed-none : (o : Option ℕ) → unconsumed o ≡ true → o ≡ none
unconsumed-none none h = refl
unconsumed-none (some t) h = cc

granted :
    (row : ExecutionToken) (u c : String) (now : ℕ)
    → (row.user_id =ₛ u) ≡ true
    → (row.context_hash =ₛ c) ≡ true
    → is_redeemable now row ≡ true
    → Grants row u c now
unfolding is_redeemable
granted row u c now h k j = record {
  same_user = ground (arith, eq_iff row.user_id u);
  same_context = ground (arith, eq_iff row.context_hash c);
  unused = unconsumed-none row.consumed_at (ground arith);
  unexpired = ground arith;
}

consume-redeemable :
    (id : String) (now : ℕ) (db : Table) (row : ExecutionToken)
    → get id db ≡ some row
    → is_redeemable now row ≡ true
    → consume id now db ≡ (put id (consumed now row) db, true)
unfolding consume
consume-redeemable id now db row e h = rw (e, consume) (rw h refl)

consume-unredeemable :
    (id : String) (now : ℕ) (db : Table) (row : ExecutionToken)
    → get id db ≡ some row
    → is_redeemable now row ≡ false
    → consume id now db ≡ (db, false)
unfolding consume
consume-unredeemable id now db row e h = rw (e, consume) (rw h refl)

get-put_same : (id : String) (row : ExecutionToken) (db : Table) → get id (put id row db) ≡ some row
get-put_same id row db = ground (arith, self_eq id, get-put id id row db)

module _ (hash : String → String) where
  redeem-checked :
      (token u c : String) (now : ℕ) (db : Table) (row : ExecutionToken)
      → get (hash token) db ≡ some row
      → (row.user_id =ₛ u) ≡ true
      → (row.context_hash =ₛ c) ≡ true
      → is_redeemable now row ≡ true
      → redeem hash token u c now db
        ≡ (put (hash token) (consumed now row) db, redeemed (consumed now row))
  unfolding redeem
  redeem-checked token u c now db row e h k j =
      rw (e, redeem)
        (rw h (
          rw k (
            rw (consume-redeemable (hash token) now db row e j)
              (rw (get-put_same (hash token) (consumed now row) db) refl))))

  -- A token whose row grants it is redeemed: the caller gets the row, which the table now holds as
  -- consumed.
  pub redeem-Grants :
      (token u c : String) (now : ℕ) (db : Table) (row : ExecutionToken)
      → get (hash token) db ≡ some row
      → Grants row u c now
      → redeem hash token u c now db
        ≡ (put (hash token) (consumed now row) db, redeemed (consumed now row))
  redeem-Grants token u c now db row e g =
      redeem-checked token u c now db row e (rw g.same_user (self_eq u))
        (rw g.same_context (self_eq c)) (redeemable_lem row u c now g)

  -- `redeem` returns a row only for a token in the table, to its user, against its target, unused
  -- and unexpired; in every other case it raises and the table is as it was.
  pub redeem-cases :
      (token u c : String) (now : ℕ) (db : Table)
      → ((row : ExecutionToken) × (get (hash token) db ≡ some row) × Grants row u c now)
        ⊎ (((redeem hash token u c now db).0 ≡ db) × ¬ IsRedeemed (redeem hash token u c now db).1)
  unfolding redeem
  redeem-cases token u c now db = elim (Option-cases (get (hash token) db)) [
    | inl e ↦ inr (rw (e, redeem) (refl, λ x. x))
    | inr r ↦
        let e = r.1 in
        elim (Bool-cases (r.0.user_id =ₛ u)) [
          | inr h ↦ inr (rw (e, redeem) (rw h (refl, λ x. x)))
          | inl h ↦ elim (Bool-cases (r.0.context_hash =ₛ c)) [
            | inr k ↦ inr (rw (e, redeem) (rw h (rw k (refl, λ x. x))))
            | inl k ↦ elim (Bool-cases (is_redeemable now r.0)) [
              | inr j ↦ inr (
                  rw (e, redeem)
                    (rw h (
                      rw k (rw (consume-unredeemable (hash token) now db r.0 e j) (refl, λ x. x)))))
              | inl j ↦ inl (r.0, e, granted r.0 u c now h k j)
            ]
          ]
        ]
  ]

  redeem-spent :
      (token u c : String) (now : ℕ) (db : Table) (row : ExecutionToken)
      → get (hash token) db ≡ some row
      → row.user_id ≡ u
      → row.context_hash ≡ c
      → is_redeemable now row ≡ false
      → (redeem hash token u c now db).1 ≡ token_expired_or_used
  unfolding redeem
  redeem-spent token u c now db row e h k j =
      let h' : (row.user_id =ₛ u) ≡ true = rw h (self_eq u) in
      let k' : (row.context_hash =ₛ c) ≡ true = rw k (self_eq c) in
      rw (e, redeem) (rw h' (rw k' (rw (consume-unredeemable (hash token) now db row e j) refl)))

  spent : (now later : ℕ) (row : ExecutionToken) → is_redeemable later (consumed now row) ≡ false
  unfolding is_redeemable
  spent now later row = refl

  -- A token that `redeem` has returned a row for is used up: redeemed again, by the same user
  -- against the same target, at any time, it is refused as used.
  pub redeem-twice :
      (token u c : String) (now later : ℕ) (db : Table)
      → IsRedeemed (redeem hash token u c now db).1
      → (redeem hash token u c later (redeem hash token u c now db).0).1 ≡ token_expired_or_used
  redeem-twice token u c now later db h = elim (redeem-cases token u c now db) [
    | inr r ↦ absurd (r.1 h)
    | inl r ↦ rw (redeem-Grants token u c now db r.0 r.1 r.2) (
        redeem-spent token u c later (put (hash token) (consumed now r.0) db) (consumed now r.0)
          (get-put_same (hash token) (consumed now r.0) db) r.2.same_user r.2.same_context
          (spent now later r.0))
  ]

  issue-some :
      (raw : String) (now : ℕ) (u sql category c : String) (connection organization : Option String)
      (db db' : Table)
      → issue hash raw now u sql category c connection organization db ≡ some db'
      → db' ≡ put (hash raw) (minted now u sql category c connection organization) db
  unfolding issue
  issue-some raw now u sql category c connection organization db db' h =
      elim (Option-cases (get (hash raw) db)) [
        | inl e ↦ ground (arith, e, h)
        | inr r ↦ ground (arith, r.1, h)
      ]

  -- A token just issued is redeemed by its user against its target while it lives, and the row that
  -- is returned carries the statement that was confirmed, under its category.
  pub redeem-issue :
      (raw : String) (now later : ℕ) (u sql category c : String)
      (connection organization : Option String) (db db' : Table)
      → issue hash raw now u sql category c connection organization db ≡ some db'
      → later < now + token_ttl
      → (row : ExecutionToken) × ((redeem hash raw u c later db').1 ≡ redeemed row)
        × (row.sql ≡ sql)
        × (row.safety_category ≡ category)
        × (row.consumed_at ≡ some later)
  redeem-issue raw now later u sql category c connection organization db db' h k =
      let row = minted now u sql category c connection organization in
      let e : get (hash raw) db' ≡ some row =
        rw (issue-some raw now u sql category c connection organization db db' h)
          (get-put_same (hash raw) row db) in
      (
        consumed later row,
        ap (λ r. r.1)
            (redeem-Grants raw u c later db' row e
              (record { same_user = refl; same_context = refl; unused = refl; unexpired = k })),
        refl,
        refl,
        refl,
      )
