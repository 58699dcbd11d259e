-- ===== src/Tokens/Examples.antt =====
-- One token issued and redeemed.
use dbbuddy.Base.{◌≤◌, ◌≡◌, ◌⊎◌, refl, String, none, some, arith, [], ◌∷◌}
use dbbuddy.Base.Equality.{string_eq}
use dbbuddy.Base.Dict.{get, put}
use dbbuddy.Tokens.{
  ExecutionToken, Table, redeemed, token_context_mismatch, token_expired_or_used, minted, issue,
  redeem,
}
use dbbuddy.Tokens.Redeeming.{Grants, IsRedeemed, redeem-cases, redeem-twice, redeem-issue}
use dbbuddy.Tokens.Race.{take, redemptions, redemptions-le-one}

abbrev digest : String → String
digest token = token

abbrev row : ExecutionToken
row = minted 1000 "ann" "DELETE FROM orders" "write" "erp" none none

abbrev table : Table
table = ("t1", row) ∷ []

mismatch : redeem digest "t1" "ann" "other" 2000 table ≡ (table, token_context_mismatch)
unfolding redeem get put
mismatch = refl

issued : issue digest "t1" 1000 "ann" "DELETE FROM orders" "write" "erp" none none [] ≡ some table
unfolding issue get put
issued = refl

accepted : IsRedeemed (redeem digest "t1" "ann" "erp" 2000 table).1
unfolding redeem get put
accepted = tt

in_table : get "t1" table ≡ some row
unfolding get
in_table = refl

redeem-cases_example :
    ((r : ExecutionToken) × (get "t1" table ≡ some r) × Grants r "bob" "erp" 2000)
    ⊎ (((redeem digest "t1" "bob" "erp" 2000 table).0 ≡ table)
        × ¬ IsRedeemed (redeem digest "t1" "bob" "erp" 2000 table).1)
redeem-cases_example = redeem-cases digest "t1" "bob" "erp" 2000 table

redeem-twice_example :
    (redeem digest "t1" "ann" "erp" 3000 (redeem digest "t1" "ann" "erp" 2000 table).0).1
    ≡ token_expired_or_used
redeem-twice_example = redeem-twice digest "t1" "ann" "erp" 2000 3000 table accepted

redeem-issue_example :
    (r : ExecutionToken) × ((redeem digest "t1" "ann" "erp" 2000 table).1 ≡ redeemed r)
    × (r.sql ≡ "DELETE FROM orders")
    × (r.safety_category ≡ "write")
    × (r.consumed_at ≡ some 2000)
redeem-issue_example =
    redeem-issue digest "t1" 1000 2000 "ann" "DELETE FROM orders" "write" "erp" none none [] table
      issued (omega arith)

redemptions-le-one_example :
    redemptions digest "t1" (take "t1" 2000 ∷ take "t1" 2000 ∷ []) table ≤ 1
redemptions-le-one_example =
    redemptions-le-one digest "t1" (take "t1" 2000 ∷ take "t1" 2000 ∷ []) table
