-- ===== src/Tokens.antt =====
-- backend/app_db/execution_tokens.py: single-use grants to run the SQL that the user confirmed.
-- SHA-256 is the parameter `hash`, the random token an argument of `issue`; times are in
-- microseconds. A row goes in only under a new primary key, as the table demands.
pub mod Redeeming
pub mod Race
mod Examples
use dbbuddy.Base.{
  ℕ, ◌+◌, ◌*◌, ◌≤◌, ◌<◌, ◌≡◌, ◌≢◌, refl, Bool, true, false, not, ltb, if◌then◌else◌, String, ◌=ₛ◌,
  eq_iff, ◌&&◌, Option, none, some, arith, Option-cases, Bool-cases, inl, inr, ap,
}
use dbbuddy.Base.Equality.{string_eq}
use dbbuddy.Base.Dict.{Dict, get, put, get-put}

pub record ExecutionToken : Type 0 where
  pub user_id : String
  pub organization_id : Option String
  pub database_connection_id : Option String
  pub sql : String
  pub safety_category : String
  pub context_hash : String
  pub created_at : ℕ
  pub expires_at : ℕ
  pub consumed_at : Option ℕ

abbrev pub Table : Type 0
Table = Dict ExecutionToken

abbrev pub token_ttl : ℕ
token_ttl = 300 * 1000000

-- What `redeem` returns or raises.
pub data Redemption : Type 0 where
  redeemed : ExecutionToken → Redemption
  token_invalid token_context_mismatch token_expired_or_used : Redemption

abbrev pub unconsumed : Option ℕ → Bool
unconsumed none = true
unconsumed (some t) = false

-- The condition of the guarded UPDATE, `id` aside.
unfoldable pub is_redeemable : ℕ → ExecutionToken → Bool
is_redeemable now row = unconsumed row.consumed_at && ltb now row.expires_at

abbrev pub consumed : ℕ → ExecutionToken → ExecutionToken
consumed now row = record row { consumed_at = some now }

-- The guarded UPDATE, with whether a row was updated.
unfoldable pub consume : String → ℕ → Table → Table × Bool
unfolding is_redeemable
consume id now db = elim (get id db) [
  | none ↦ (db, false)
  | some row ↦ if is_redeemable now row then (put id (consumed now row) db, true) else (db, false)
]

abbrev pub minted :
    (now : ℕ) (user_id sql safety_category context_hash : String)
    (connection_id organization_id : Option String)
    → ExecutionToken
minted now user_id sql safety_category context_hash connection_id organization_id = record {
  user_id = user_id;
  organization_id = organization_id;
  database_connection_id = connection_id;
  sql = sql;
  safety_category = safety_category;
  context_hash = context_hash;
  created_at = now;
  expires_at = now + token_ttl;
  consumed_at = none;
}

module _ (hash : String → String) where
  -- The table after the insert, unless the key is taken.
  unfoldable pub issue :
      (raw : String) (now : ℕ) (user_id sql safety_category context_hash : String)
      (connection_id organization_id : Option String)
      → Table
      → Option Table
  issue raw now user_id sql safety_category context_hash connection_id organization_id db =
      elim (get (hash raw) db) [
        | some row ↦ none
        | none ↦ some (
            put (hash raw)
              (minted now user_id sql safety_category context_hash connection_id organization_id)
              db)
      ]

  unfoldable pub redeem : String → String → String → ℕ → Table → Table × Redemption
  unfolding consume
  redeem token user_id context_hash now db = elim (get (hash token) db) [
    | none ↦ (db, token_invalid)
    | some row ↦
        if not (row.user_id =ₛ user_id)
        then (db, token_invalid)
        else (if not (row.context_hash =ₛ context_hash)
            then (db, token_context_mismatch)
            else (let (db', updated) = consume (hash token) now db in
                if updated
                then (
                  db',
                  elim (get (hash token) db') [ some r ↦ redeemed r | none ↦ token_invalid ],
                )
                else (db, token_expired_or_used)))
  ]
