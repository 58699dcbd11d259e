-- ===== src/Guard/Threads.antt =====
-- Requests of one caller against one process's window, in threads: the two calls of `check` each take
-- the lock, and other requests come between them.
use dbbuddy.Base.{ℕ, ◌+◌, ◌-◌, ◌≤◌, ◌<◌, ◌≡◌, Bool, Option, none, some, List, [], ◌∷◌, Text}
use dbbuddy.Guard.{Failures, record_failure, clear_all, ask, check}

-- The windows, the time, how many requests of the caller have passed `ask` and are not recorded yet,
-- and the times recorded for those that were let through.
pub record World : Type 0 where
  pub failures : Failures
  pub clock : ℕ
  pub between : ℕ
  pub served : List ℕ

module _ (workers : ℕ) (fail_open available : Bool) (max_requests overlap : ℕ) (key : Text) where
  abbrev local_ask : ℕ → Failures → Option (Option ℕ) × Failures
  local_ask now failures = ask workers fail_open available key max_requests now none failures

  -- What the threads do, in any order, while the shared window cannot be read. A call reads the clock
  -- before it has the lock, so its reading may be an old one; no more than `overlap` requests of the
  -- caller are between their two calls at one time.
  pub data Step (w : World) : World → Type 0 where
    passes : (n : ℕ) → Step w (record w { clock = w.clock + n })
    asks :
        (now : ℕ)
        → now ≤ w.clock
        → (local_ask now w.failures).0 ≡ some none
        → w.between + 1 ≤ overlap
        → Step w (record w { failures = (local_ask now w.failures).1; between = w.between + 1 })
    records :
        (now : ℕ)
        → now ≤ w.clock
        → 0 < w.between
        → Step w (record w {
          failures = record_failure key now w.failures;
          between = w.between - 1;
          served = now ∷ w.served;
        })
    refuses :
        (now wait : ℕ)
        → now ≤ w.clock
        → (local_ask now w.failures).0 ≡ some (some wait)
        → Step w (record w { failures = (local_ask now w.failures).1 })
    lets_through :
        (now : ℕ)
        → now ≤ w.clock
        → (local_ask now w.failures).0 ≡ none
        → Step w (record w { failures = (local_ask now w.failures).1; served = now ∷ w.served })
    others :
        (failures : Failures)
        → failures key ≡ w.failures key
        → Step w (record w { failures = failures })

  pub data Reaches (w : World) : World → Type 0 where
    stay : Reaches w w
    step_on : (v u : World) → Reaches w v → Step v u → Reaches w u

  abbrev local_check : (asked recorded : ℕ) → Failures → Option ℕ × Failures
  local_check asked recorded failures =
      check workers fail_open available key max_requests asked recorded none failures

  abbrev served_after : ℕ → List ℕ → Option ℕ → List ℕ
  served_after recorded served none = recorded ∷ served
  served_after recorded served (some wait) = served

  -- A run from `w` that does what `check` does: it ends in the windows that `check` leaves, and the
  -- request is served in it, at the time that it is recorded, exactly where `check` lets it proceed.
  pub record Runs (asked recorded : ℕ) (w : World) : Type 0 where
    pub end : World
    pub reached : Reaches w end
    pub same_failures : end.failures ≡ (local_check asked recorded w.failures).1
    pub same_between : end.between ≡ w.between
    pub same_served :
        end.served ≡ served_after recorded w.served (local_check asked recorded w.failures).0

-- When a process has started.
abbrev pub started : ℕ → World
started clock = record { failures = clear_all (λ key. []); clock = clock; between = 0; served = [] }
