-- ===== src/Guard.antt =====
-- backend/app_db/login_guard.py and backend/app_db/rate_limit.py: sliding windows of attempts.
-- Times are in microseconds. `_failures` is a function from keys: a key without an entry and one
-- with an empty deque are the same to every reader. What `_shared_count` answers is an argument,
-- `none` where Redis is absent or fails; what is written to Redis is not modelled.
pub mod Cap
pub mod Window
pub mod Threads
pub mod Budget
pub mod Keys
mod Examples
use dbbuddy.Base.{
  ℕ, ◌+◌, ◌-◌, ◌*◌, ◌/◌, Bool, true, false, not, leb, ltb, if◌then◌else◌, ◌&&◌, Option, none, some,
  List, [], ◌∷◌, ◌++◌, length, Text, codes, same, empty, lower, strip,
}
use Prim.Native.Nat.{max}

abbrev pub second : ℕ
second = 1000000

abbrev pub window : ℕ
window = 900 * second

abbrev pub Failures : Type 0
Failures = Text → List ℕ

unfoldable pub with : Text → List ℕ → Failures → Failures
with key dq failures j = if same key j then dq else failures j

-- `math.ceil(max_attempts / WORKER_COUNT)`, at least 1.
unfoldable pub local_cap : (workers max_attempts : ℕ) → ℕ
local_cap workers max_attempts = max 1 ((max_attempts + (workers - 1)) / workers)

unfoldable pub prune : ℕ → List ℕ → List ℕ
prune now [] = []
prune now (t ∷ dq) = let rest = prune now dq in if leb (t + window) now then rest else t ∷ dq

-- `int(oldest + WINDOW_SECONDS - now) + 1`.
abbrev pub wait_from : (oldest now : ℕ) → ℕ
wait_from oldest now = (oldest + window - now) / second + 1

-- The local window's part of `retry_after`, from the pruned deque.
unfoldable pub local_retry : (effective now : ℕ) → List ℕ → Option ℕ
local_retry effective now [] = none
local_retry effective now (t ∷ dq) =
    if leb effective (length (t ∷ dq)) then some (wait_from t now) else none

module _ (workers : ℕ) where
  -- The answer, and the failures with the local window pruned where it was looked at.
  unfoldable pub retry_after :
      (key : Text) (max_attempts now : ℕ)
      → (shared : Option (ℕ × Option ℕ)) → Failures
      → Option ℕ × Failures
  unfolding local_cap prune local_retry with
  retry_after key max_attempts now (some (count, none)) failures = (none, failures)
  retry_after key max_attempts now (some (count, some oldest)) failures =
      (if leb max_attempts count then some (wait_from oldest now) else none, failures)
  retry_after key max_attempts now none failures =
      let dq = prune now (failures key) in
      (local_retry (local_cap workers max_attempts) now dq, with key dq failures)

unfoldable pub record_failure : (key : Text) (now : ℕ) → Failures → Failures
unfolding prune with
record_failure key now failures = with key (prune now (failures key) ++ now ∷ []) failures

unfoldable pub reset : (key : Text) → Failures → Failures
unfolding with
reset key failures = with key [] failures

unfoldable pub clear_all : Failures → Failures
clear_all failures = λ key. []

-- The token after a `Bearer ` prefix in any case, stripped.
unfoldable pub bearer_token : Text → Option Text
unfolding same lower strip
bearer_token (b ∷ e ∷ a ∷ r ∷ e' ∷ r' ∷ space ∷ token) =
    if same (lower (b ∷ e ∷ a ∷ r ∷ e' ∷ r' ∷ space ∷ [])) (codes "bearer ")
    then some (strip token)
    else none
bearer_token _ = none

-- `decode_token(token).get("sub")`, `none` where it raises or there is no subject.
module _ (decode : Text → Option Text) where
  unfoldable pub budget_key : (budget : Text) (authorization client_ip : Option Text) → Text
  unfolding bearer_token
  budget_key budget authorization client_ip =
      let ip : Text = elim client_ip [
        | none ↦ codes "-"
        | some a ↦ if empty a then codes "-" else a
      ] in
      let by_ip = codes "ip:" ++ ip in
      let token : Option Text = elim authorization [ none ↦ none | some a ↦ bearer_token a ] in
      let subject : Option Text = elim token [ none ↦ none | some t ↦ decode t ] in
      let who : Text = elim subject [
        | none ↦ by_ip
        | some s ↦ if empty s then by_ip else codes "user:" ++ s
      ] in
      codes "rl::" ++ (budget ++ (codes "::" ++ who))

-- What `check` of `make_check` does before anything is recorded: `none` where the request is let
-- through uncounted, and else what `retry_after` says.
unfoldable pub ask :
    (workers : ℕ) (fail_open shared_window_available : Bool) (key : Text) (max_requests now : ℕ)
    → (shared : Option (ℕ × Option ℕ)) → Failures
    → Option (Option ℕ) × Failures
unfolding retry_after
ask workers fail_open shared_window_available key max_requests now shared failures =
    if fail_open && not shared_window_available
    then (none, failures)
    else (let (locked, failures') = retry_after workers key max_requests now shared failures in
        (some locked, failures'))

-- What `check` does after that: `none` lets the request proceed, and one that is counted is recorded.
-- The code's test of a wait is its truth; a wait is at least one second.
abbrev pub settle : (key : Text) (recorded : ℕ) → Option (Option ℕ) × Failures → Option ℕ × Failures
settle key recorded (none, failures) = (none, failures)
settle key recorded (some (some wait), failures) = (some wait, failures)
settle key recorded (some none, failures) = (none, record_failure key recorded failures)

-- `check`, for the caller's key, where no other request comes between its two calls. Each call reads
-- the clock.
unfoldable pub check :
    (workers : ℕ) (fail_open shared_window_available : Bool) (key : Text)
    (max_requests asked recorded : ℕ)
    → (shared : Option (ℕ × Option ℕ)) → Failures
    → Option ℕ × Failures
unfolding ask record_failure
check workers fail_open shared_window_available key max_requests asked recorded shared failures =
    settle key recorded
      (ask workers fail_open shared_window_available key max_requests asked shared failures)
