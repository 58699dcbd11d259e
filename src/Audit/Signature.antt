-- ===== src/Audit/Signature.antt =====
-- `sign`, `verify` and `verify_rows`. The keyed hash, the JSON text and the format of a time are
-- parameters; times are in microseconds.
use dbbuddy.Base.{
  ℕ, ◌≡◌, ◌↔◌, refl, Bool, true, false, not, if◌then◌else◌, Option, none, some, List, [], ◌∷◌,
  length, keep, String, ◌=ₛ◌, Holds, arith,
}

-- A time with a zone is the instant and the digits that it shows there, which the zone's offset tells
-- apart; the code takes it to UTC when it is signed, and reads one without a zone as UTC.
pub data Datetime : Type 0 where
  aware : (instant digits : ℕ) → Datetime
  naive : (digits : ℕ) → Datetime

abbrev pub utc : Datetime → ℕ
utc (aware instant digits) = instant
utc (naive digits) = digits

pub record Fields : Type 0 where
  pub id : Option String
  pub user_id : Option String
  pub organization_id : Option String
  pub entity_type : Option String
  pub action : Option String
  pub entity_id : Option String
  pub ip_address : Option String
  pub request_id : Option String

-- A row of `audit_logs`; `D` is the type of its JSON detail.
pub record Row (D : Type 0) : Type 0 where
  pub signed_fields : Fields
  pub created_at : Option Datetime
  pub detail : Option D
  pub entry_hash : Option String

-- What is serialised: the signed fields, the time and the detail as texts.
abbrev pub Payload : Type 0
Payload = Fields × Option String × Option String

-- `a or b` on a text that may be absent or empty.
abbrev pub text_or : Option String → String → String
text_or none b = b
text_or (some a) b = if a =ₛ "" then b else a

module _ {D : Type 0} (hmac : String → String → String) (strftime : ℕ → String) (truthy : D → Bool)
    (dumps_detail : D → String) (dumps : Payload → String)
    (app_secret jwt_secret : Option String) where
  unfoldable pub signing_key : String
  signing_key = hmac "dbbuddy-audit-integrity-v1" (text_or app_secret (text_or jwt_secret ""))

  abbrev pub created_text : Option Datetime → Option String
  created_text none = none
  created_text (some t) = some (strftime (utc t))

  unfoldable pub payload : Row D → Payload
  payload row =
      let detail : Option String = elim row.detail [
        | none ↦ none
        | some d ↦ if truthy d then some (dumps_detail d) else none
      ] in
      (row.signed_fields, created_text row.created_at, detail)

  unfoldable pub sign : Row D → String
  unfolding signing_key payload
  sign row = hmac signing_key (dumps (payload row))

  unfoldable pub verify : Row D → Bool
  unfolding sign
  verify row = elim row.entry_hash [
    | none ↦ false
    | some stored ↦ if stored =ₛ "" then false else stored =ₛ sign row
  ]

  unfoldable pub verify_rows : List (Row D) → ℕ × List (Row D)
  unfolding verify
  verify_rows rows = (length rows, keep (λ row. not (verify row)) rows)

  -- `verify_rows` reports no failure exactly when every row verifies.
  pub verify_rows-clean :
      (rows : List (Row D)) → ((verify_rows rows).1 ≡ []) ↔ Holds (λ row. verify row ≡ true) rows
  unfolding verify_rows
  verify_rows-clean [] = ((λ h. tt), λ h. refl)
  verify_rows-clean (row ∷ rows) =
      let rest = verify_rows-clean rows in
      ((λ h. (ground arith, rest.0 (ground arith))), λ h. ground (arith, h.0, rest.1 h.1))
