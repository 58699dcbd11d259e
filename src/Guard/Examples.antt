-- ===== src/Guard/Examples.antt =====
-- Windows at concrete times.
use dbbuddy.Base.{
  ◌+◌, ◌*◌, ◌≤◌, ◌<◌, ◌≡◌, ◌↔◌, refl, false, Option, none, some, [], ◌∷◌, Text, codes, arith, same,
}
use dbbuddy.Guard.{
  second, Failures, local_cap, prune, local_retry, retry_after, clear_all, bearer_token, budget_key,
  check, ask, record_failure,
}
use dbbuddy.Guard.Cap.{local_cap-bounds}
use dbbuddy.Guard.Window.{recent, InOrder, retry_after_iff, retry_after-wait}
use dbbuddy.Guard.Keys.{budget_key-user}
use dbbuddy.Guard.Budget.{served-le-cap}
use dbbuddy.Guard.Threads.{World, started, Reaches, stay, step_on, asks, records}

local_cap-bounds_example :
    (5 ≤ 4 * local_cap 4 5) × (4 * local_cap 4 5 < 5 + 4) × (local_cap 4 5 ≤ 5)
local_cap-bounds_example = local_cap-bounds 4 5 (omega arith) (omega arith)

abbrev ann : Text
ann = codes "1.2.3.4|ann"

-- Two failures, of which the first is older than the window at the time of the third request.
abbrev failures : Failures
failures = λ key. 5 ∷ 100 * second ∷ []

failures-InOrder : InOrder (100 * second) (failures ann)
unfolding InOrder
failures-InOrder = (omega arith, (omega arith, tt), (omega arith, tt, tt))

locked : (retry_after 4 ann 5 (200 * second) none failures).0 ≡ some 701
unfolding retry_after local_retry prune
locked = refl

retry_after_iff_example :
    ((retry_after 4 ann 5 (200 * second) none failures).0 ≡ none)
    ↔ (recent (200 * second) (failures ann) < local_cap 4 5)
retry_after_iff_example =
    retry_after_iff 4 ann 5 (200 * second) (100 * second) failures failures-InOrder

retry_after-wait_example :
    recent (200 * second + 701 * second) (failures ann) < recent (200 * second) (failures ann)
retry_after-wait_example =
    retry_after-wait 4 ann 5 (200 * second) (100 * second) 701 failures failures-InOrder locked

third_refused :
    let after_one = (check 1 false false ann 2 10 11 none (clear_all failures)).1 in
    let after_two = (check 1 false false ann 2 20 21 none after_one).1 in
    (check 1 false false ann 2 30 31 none after_two).0 ≡ some 900
unfolding check clear_all same
third_refused = refl

-- Two requests look before either is recorded, and both take the one place there is.
abbrev w1 : World
unfolding ask clear_all
w1 = record (started 10) {
  failures = (ask 1 false false ann 1 9 none (started 10).failures).1;
  between = 1;
}

abbrev w2 : World
unfolding ask clear_all
w2 = record w1 { failures = (ask 1 false false ann 1 10 none w1.failures).1; between = 2 }

abbrev w3 : World
unfolding ask clear_all record_failure
w3 = record w2 { failures = record_failure ann 10 w2.failures; between = 1; served = 10 ∷ [] }

abbrev w4 : World
unfolding ask clear_all record_failure
w4 = record w3 { failures = record_failure ann 9 w3.failures; between = 0; served = 9 ∷ 10 ∷ [] }

w4-Reaches : Reaches 1 false false 1 2 ann (started 10) w4
unfolding ask clear_all record_failure same
w4-Reaches =
    step_on w3 w4
      (step_on w2 w3
        (step_on w1 w2 (step_on (started 10) w1 stay (asks 9 (omega arith) refl (omega arith)))
          (asks 10 (omega arith) refl (omega arith)))
        (records 10 (omega arith) (omega arith)))
      (records 9 (omega arith) (omega arith))

both_served : recent 10 w4.served ≡ 2
unfolding recent w4
both_served = refl

served-le-cap_example : recent w4.clock w4.served < local_cap 1 1 + 2
served-le-cap_example = served-le-cap 1 false false 1 2 ann refl 10 w4 w4-Reaches

abbrev verifies_none : Text → Option Text
verifies_none token = none

abbrev verifies_all : Text → Option Text
verifies_all token = some token

bearer : bearer_token (codes "Bearer x") ≡ some (codes "x")
unfolding bearer_token
bearer = refl

bearer_other : bearer_token (codes "bearer y") ≡ some (codes "y")
unfolding bearer_token
bearer_other = refl

budget_key-user_example :
    (budget_key verifies_all (codes "query") (some (codes "Bearer x")) none
      ≡ budget_key verifies_all (codes "query") (some (codes "bearer y")) none)
    ↔ (codes "x" ≡ codes "y")
budget_key-user_example =
    budget_key-user verifies_all (codes "query") (codes "Bearer x") (codes "bearer y") (codes "x")
      (codes "y") (codes "x") (codes "y") none none bearer refl refl bearer_other refl refl
