-- ===== src/Guard/Budget.antt =====
-- How many requests of one caller the threads of a process let through.
use dbbuddy.Base.{
  ℕ, ◌+◌, ◌≤◌, ◌<◌, ◌≡◌, refl, sym, ap, ◌∙◌, Bool, false, not, ◌&&◌, Option, none, some, List, [],
  ◌∷◌, ◌++◌, length, Text, same_self, arith, Bool-cases, inl, inr, leb,
}
use dbbuddy.Guard.{
  window, Failures, with, local_cap, prune, local_retry, retry_after, record_failure, clear_all,
  ask,
}
use dbbuddy.Guard.Window.{
  recent, recent-append, recent-prune, local_cap-positive, local_retry_iff, recent-antitone,
}
use dbbuddy.Guard.Threads.{
  World, Step, passes, asks, records, refuses, lets_through, others, Reaches, stay, step_on,
  started,
}

module _ (workers : ℕ) (fail_open available : Bool) (max_requests overlap : ℕ) (key : Text) where
  abbrev answer : ℕ → Failures → Option (Option ℕ) × Failures
  answer now failures = ask workers fail_open available key max_requests now none failures

  recent-le-length : (now : ℕ) (dq : List ℕ) → recent now dq ≤ length dq
  unfolding recent
  recent-le-length now [] = omega arith
  recent-le-length now (t ∷ dq) = ground (arith, recent-le-length now dq)

  -- Whether or not the attempts are in order, none that is recent is pruned.
  recent-le-prune : (now : ℕ) (dq : List ℕ) → recent now dq ≤ length (prune now dq)
  unfolding recent prune
  recent-le-prune now [] = omega arith
  recent-le-prune now (t ∷ dq) = elim (Bool-cases (leb (t + window) now)) [
    | inl e ↦ ground (arith, recent-le-prune now dq)
    | inr e ↦ ground (arith, recent-le-length now dq)
  ]

  record Inv (w : World) : Type 0 where
    counted : (t : ℕ) → w.clock ≤ t → recent t (w.failures key) ≡ recent t w.served
    room : recent w.clock (w.failures key) + w.between < local_cap workers max_requests + overlap

  with_key : (dq : List ℕ) (f : Failures) → with key dq f key ≡ dq
  unfolding with
  with_key dq f = rw (same_self key) refl

  module _ (closed : (fail_open && not available) ≡ false) where
    asked :
        (now : ℕ) (f : Failures)
        → answer now f ≡ (
          some (local_retry (local_cap workers max_requests) now (prune now (f key))),
          with key (prune now (f key)) f,
        )
    unfolding ask retry_after
    asked now f = rw (closed, ask) refl

    -- A look at the window forgets nothing that is recent.
    asked-recent :
        (now t : ℕ) (f : Failures) → now ≤ t → recent t ((answer now f).1 key) ≡ recent t (f key)
    asked-recent now t f h =
        ap (λ p. recent t (p.1 key)) (asked now f)
        ∙ ap (recent t) (with_key (prune now (f key)) f)
        ∙ recent-prune now t (f key) h

    asked-room :
        (now : ℕ) (f : Failures)
        → (answer now f).0 ≡ some none
        → recent now (f key) < local_cap workers max_requests
    asked-room now f e =
        let cap = local_cap workers max_requests in
        let dq = prune now (f key) in
        let free : local_retry cap now dq ≡ none =
          ap (λ o. elim o as (λ x. Option ℕ) [ none ↦ none | some locked ↦ locked ])
            (sym (ap (λ p. p.0) (asked now f)) ∙ e) in
        omega (
          arith,
          recent-le-prune now (f key),
          (local_retry_iff cap now dq (local_cap-positive workers max_requests)).0 free,
        )

    recorded-recent :
        (now t : ℕ) (f : Failures)
        → now ≤ t
        → recent t (record_failure key now f key) ≡ recent t (f key) + recent t (now ∷ [])
    unfolding record_failure
    recorded-recent now t f h =
        ap (recent t) (with_key (prune now (f key) ++ now ∷ []) f)
        ∙ recent-append t (prune now (f key)) (now ∷ [])
        ∙ ap (λ n. n + recent t (now ∷ [])) (recent-prune now t (f key) h)

    recent-cons :
        (t now : ℕ) (dq : List ℕ) → recent t (now ∷ dq) ≡ recent t (now ∷ []) + recent t dq
    unfolding recent
    recent-cons t now dq = omega arith

    recent-one : (t now : ℕ) → recent t (now ∷ []) ≤ 1
    unfolding recent
    recent-one t now = ground arith

    Step-Inv :
        (w v : World)
        → Step workers fail_open available max_requests overlap key w v
        → Inv w
        → Inv v
    Step-Inv w v (passes n) h = record {
      counted = λ t late. h.counted t (omega (arith, late));
      room = omega (arith, h.room, recent-antitone w.clock (w.clock + n) (w.failures key));
    }
    Step-Inv w v (asks now early e free) h = record {
      counted = λ t late. asked-recent now t w.failures (omega (arith, late)) ∙ h.counted t late;
      room = omega (
        arith,
        asked-recent now w.clock w.failures early,
        asked-room now w.failures e,
        recent-antitone now w.clock (w.failures key) early,
      );
    }
    Step-Inv w v (records now early waits) h = record {
      counted = λ t late. omega (
        arith,
        recorded-recent now t w.failures (omega (arith, late)),
        h.counted t late,
        recent-cons t now w.served,
      );
      room =
          omega
            (arith, recorded-recent now w.clock w.failures early, recent-one w.clock now, h.room);
    }
    Step-Inv w v (refuses now wait early e) h = record {
      counted = λ t late. asked-recent now t w.failures (omega (arith, late)) ∙ h.counted t late;
      room = omega (arith, asked-recent now w.clock w.failures early, h.room);
    }
    Step-Inv w v (lets_through now early e) h =
        absurd (ground (arith, sym (ap (λ p. p.0) (asked now w.failures)) ∙ e))
    Step-Inv w v (others failures e) h = record {
      counted = λ t late. ap (recent t) e ∙ h.counted t late;
      room = omega (arith, ap (recent w.clock) e, h.room);
    }

    Reaches-Inv :
        (w v : World)
        → Inv w
        → Reaches workers fail_open available max_requests overlap key w v
        → Inv v
    Reaches-Inv w v h stay = h
    Reaches-Inv w v h (step_on u end r t) = Step-Inv u end t (Reaches-Inv w u h r)

-- From a process that has just started, while the shared window cannot be read, and unless the
-- budget gives way then: however the threads of the process interleave, with no more than `overlap`
-- requests of a caller between their two calls of the window at one time, at every moment fewer of
-- the caller's requests have been let through and recorded in the last window than the process's cap
-- and `overlap` together. So where requests are served one after the other, they are no more than
-- the cap.
pub served-le-cap :
    (workers : ℕ) (fail_open available : Bool) (max_requests overlap : ℕ) (key : Text)
    → (fail_open && not available) ≡ false
    → (clock : ℕ) (w : World)
    → Reaches workers fail_open available max_requests overlap key (started clock) w
    → recent w.clock w.served < local_cap workers max_requests + overlap
unfolding recent clear_all
served-le-cap workers fail_open available max_requests overlap key closed clock w r =
    let inv =
      Reaches-Inv workers fail_open available max_requests overlap key closed (started clock) w
        (record {
          counted = λ t late. refl;
          room = omega (arith, local_cap-positive workers max_requests);
        })
        r in
    omega (arith, inv.room, inv.counted w.clock (omega arith))
