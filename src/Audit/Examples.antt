-- ===== src/Audit/Examples.antt =====
-- A sequence with gaps, and rows signed with a toy hash that does not collide.
use dbbuddy.Base.{
  ◌==◌, ℕ, if◌then◌else◌, ◌≡◌, ◌↔◌, refl, Bool, true, false, Option, none, some, List, [], ◌∷◌,
  String,
}
use dbbuddy.Audit.Signature.{aware, naive, Fields, Row, Payload, sign, verify}
use dbbuddy.Audit.Sequence.{sequence_gaps}
use dbbuddy.Audit.Sequence.Ranges.{covers}
use dbbuddy.Audit.Sequence.Gaps.{IsGap, sequence_gaps-ranges}

abbrev values : List (Option ℕ)
values = some 3 ∷ some 7 ∷ none ∷ some 4 ∷ some 3 ∷ []

gaps : sequence_gaps values (some 9) ≡ record {
  first = some 3;
  last = some 7;
  present = 3;
  expected = 5;
  missing = 2;
  ranges = (5, 6) ∷ [];
  duplicates = 1;
  unsequenced = 1;
  tail_missing = 2;
}
unfolding sequence_gaps
gaps = refl

first_value : (sequence_gaps values (some 9)).first ≡ some 3
unfolding sequence_gaps
first_value = refl

last_value : (sequence_gaps values (some 9)).last ≡ some 7
unfolding sequence_gaps
last_value = refl

sequence_gaps-ranges_example :
    (covers 5 (sequence_gaps values (some 9)).ranges ≡ true) ↔ IsGap 3 7 5 values
sequence_gaps-ranges_example = sequence_gaps-ranges values (some 9) 3 7 5 first_value last_value

abbrev fields : Fields
fields = record {
  id = some "1";
  user_id = some "ann";
  organization_id = none;
  entity_type = some "connection";
  action = some "delete";
  entity_id = some "7";
  ip_address = none;
  request_id = none;
}

abbrev row : Row ℕ
row = record {
  signed_fields = fields;
  created_at = some (aware 5 7);
  detail = none;
  entry_hash = none;
}

abbrev format : ℕ → String
format t = if t == 5 then "five" else "other"

abbrev serialise : Payload → String
serialise p = elim p.1 [ none ↦ "no time" | some t ↦ t ]

abbrev mac : String → String → String
mac key text = text

abbrev truthy : ℕ → Bool
truthy d = true

abbrev dumps_detail : ℕ → String
dumps_detail d = "d"

abbrev signature : Row ℕ → String
signature = sign mac format truthy dumps_detail serialise (some "k") none

abbrev verifies : Row ℕ → Bool
verifies = verify mac format truthy dumps_detail serialise (some "k") none

-- Two hours east of UTC, a row verifies where the zone is kept, and where the time comes back as the
-- digits of UTC; as its own digits without the zone it does not.
zone_kept :
    verifies (record row { created_at = some (aware 5 7); entry_hash = some (signature row) })
    ≡ true
unfolding verify sign
zone_kept = refl

zone_converted :
    verifies (record row { created_at = some (naive 5); entry_hash = some (signature row) }) ≡ true
unfolding verify sign
zone_converted = refl

zone_dropped :
    verifies (record row { created_at = some (naive 7); entry_hash = some (signature row) }) ≡ false
unfolding verify sign
zone_dropped = refl
