-- ===== src/Jobs/Firing.antt =====
-- Whatever the workers do, one firing of a job is claimed once.
use dbbuddy.Base.{
  ℕ, ◌+◌, ◌≤◌, ◌<◌, ◌≡◌, Bool, true, false, ◌&&◌, some, Option-cases, String, eq_iff, List, [], ◌∷◌,
  Holds, arith, Bool-cases, inl, inr, ◌⊎◌, ap, sym,
}
use dbbuddy.Base.Equality.{string_eq}
use dbbuddy.Base.Dict.{Dict, get, put, remove, get-put, get-remove}
use dbbuddy.Jobs.{ScheduledJob, Db, Outcome, is_due, claim_fire, execute_job}

-- The table, and when in real time the firings of the watched job were claimed, last first.
pub record World : Type 0 where
  pub db : Db
  pub clock : ℕ
  pub claims : List ℕ

-- A worker's clock is off by no more than the skew.
abbrev pub IsNear : (skew clock now : ℕ) → Type 0
IsNear skew clock now = (clock ≤ now + skew) × (now ≤ clock + skew)

-- What the workers do to one job, in any order: time passes, a worker claims a firing or fails to,
-- a claimed job or one that a user runs now is executed, with whatever row the session had read but
-- for the stamps, and the other fields of a row are edited, or the row is deleted. The session of an
-- execution does not flush before it commits: the stamp that it took when it began is written when
-- the executor has ended, no more than `longest` after that.
pub data Step (dedupe skew longest : ℕ) (job_id : String) (w : World) : World → Type 0 where
  passes : (n : ℕ) → Step dedupe skew longest job_id w (record w { clock = w.clock + n })
  claims :
      (now : ℕ)
      → IsNear skew w.clock now
      → (claim_fire dedupe job_id now w.db).1 ≡ true
      → Step dedupe skew longest job_id w
          (record w { db = (claim_fire dedupe job_id now w.db).0; claims = w.clock ∷ w.claims })
  stands_down :
      (now : ℕ)
      → (claim_fire dedupe job_id now w.db).1 ≡ false
      → Step dedupe skew longest job_id w (record w { db = (claim_fire dedupe job_id now w.db).0 })
  executes :
      (job : ScheduledJob) (started finished began : ℕ) (outcome : Outcome)
      → IsNear skew began started
      → began ≤ w.clock
      → w.clock ≤ began + longest
      → Step dedupe skew longest job_id w
          (record w { db = execute_job job_id job started finished outcome w.db })
  edits :
      (job edited : ScheduledJob)
      → get job_id w.db.jobs ≡ some job
      → edited.last_run_at ≡ job.last_run_at
      → Step dedupe skew longest job_id w
          (record w { db = record w.db { jobs = put job_id edited w.db.jobs } })
  deletes :
      Step dedupe skew longest job_id w
        (record w { db = record w.db { jobs = remove job_id w.db.jobs } })

pub data Reaches (dedupe skew longest : ℕ) (job_id : String) (w : World) : World → Type 0 where
  stay : Reaches dedupe skew longest job_id w w
  step_on :
      (v u : World)
      → Reaches dedupe skew longest job_id w v
      → Step dedupe skew longest job_id v u
      → Reaches dedupe skew longest job_id w u

-- Any two claims are further apart than the deduplication allows for.
abbrev pub AreApart : (dedupe skew longest : ℕ) → List ℕ → Type 0
AreApart dedupe skew longest [] = Unit
AreApart dedupe skew longest (t ∷ ts) =
    Holds (λ s. s + dedupe < t + (skew + skew + longest)) ts × AreApart dedupe skew longest ts

module _ (dedupe skew longest : ℕ) (job_id : String) where
  -- The job's stamp, if there is a row, is no older than any claim, but for the skew and the longest run.
  record Inv (w : World) : Type 0 where
    apart : AreApart dedupe skew longest w.claims
    past : Holds (λ t. t ≤ w.clock) w.claims
    stamped :
        (job : ScheduledJob)
        → get job_id w.db.jobs ≡ some job
        → Holds
            (λ t. (last : ℕ) × (job.last_run_at ≡ some last) × (t ≤ last + skew + longest))
            w.claims

  abbrev Stamped : ScheduledJob → List ℕ → Type 0
  Stamped job =
      Holds (λ t. (last : ℕ) × (job.last_run_at ≡ some last) × (t ≤ last + skew + longest))

  claimed_row :
      (now : ℕ) (db : Db) (c : Bool)
      → (claim_fire dedupe job_id now db).1 ≡ c
      → ((c ≡ false) × ((claim_fire dedupe job_id now db).0 ≡ db))
        ⊎ ((job : ScheduledJob) × (get job_id db.jobs ≡ some job)
            × (is_due dedupe now job.last_run_at ≡ true)
            × (c ≡ true)
            × ((claim_fire dedupe job_id now db).0 ≡ record db {
              jobs =
                  put job_id
                    (record job { last_run_at = some now; last_status = "running" })
                    db.jobs;
            }))
  unfolding claim_fire
  claimed_row now db c h = elim (Option-cases (get job_id db.jobs)) [
    | inl g ↦ inl (ground (arith, g, h), ground (arith, g))
    | inr (job, g) ↦ elim (Bool-cases (job.enabled && is_due dedupe now job.last_run_at)) [
      | inl b ↦ inr (job, g, ground (arith, b), ground (arith, b, g, h), ground (arith, b, g))
      | inr b ↦ inl (ground (arith, b, g, h), ground (arith, b, g))
    ]
  ]

  -- A row with a stamp that is no older than that is stamped no earlier than the claims.
  Stamped-near :
      (w : World) (job : ScheduledJob) (now : ℕ) (ts : List ℕ)
      → Holds (λ t. t ≤ w.clock) ts
      → w.clock ≤ now + skew + longest
      → job.last_run_at ≡ some now
      → Stamped job ts
  Stamped-near w job now [] p l e = tt
  Stamped-near w job now (t ∷ ts) p l e =
      ((now, e, omega (arith, p.0)), Stamped-near w job now ts p.1 l e)

  due-AreApart :
      (job : ScheduledJob) (now clock : ℕ) (ts : List ℕ)
      → Stamped job ts
      → is_due dedupe now job.last_run_at ≡ true
      → now ≤ clock + skew
      → Holds (λ s. s + dedupe < clock + (skew + skew + longest)) ts
  unfolding is_due
  due-AreApart job now clock [] h d l = tt
  due-AreApart job now clock (t ∷ ts) h d l =
      (ground (arith, h.0.1, h.0.2, d), due-AreApart job now clock ts h.1 d l)

  past_later :
      (clock n : ℕ) (ts : List ℕ) → Holds (λ t. t ≤ clock) ts → Holds (λ t. t ≤ clock + n) ts
  past_later clock n [] h = tt
  past_later clock n (t ∷ ts) h = (omega (arith, h.0), past_later clock n ts h.1)

  -- The row after a write to it.
  put_row :
      (job row : ScheduledJob) (jobs : Dict ScheduledJob)
      → get job_id (put job_id row jobs) ≡ some job
      → row ≡ job
  put_row job row jobs h = ground (arith, get-put job_id job_id row jobs, eq_iff job_id job_id, h)

  Step-Inv : (w v : World) → Step dedupe skew longest job_id w v → Inv w → Inv v
  unfolding execute_job
  Step-Inv w v (passes n) h = record {
    apart = h.apart;
    past = past_later w.clock n w.claims h.past;
    stamped = h.stamped;
  }
  Step-Inv w v (claims now near c) h = elim (claimed_row now w.db true c) [
    | inl f ↦ absurd (ground (arith, f.0))
    | inr (row, g, due, taken, e) ↦ rw e (record {
      apart = (due-AreApart row now w.clock w.claims (h.stamped row g) due near.1, h.apart);
      past = (omega arith, h.past);
      stamped = λ job k.
          Stamped-near w job now (w.clock ∷ w.claims) (omega arith, h.past) (omega (arith, near.0))
            (ap (λ (j : ScheduledJob). j.last_run_at) (sym (put_row job _ w.db.jobs k)));
    })
  ]
  Step-Inv w v (stands_down now c) h = elim (claimed_row now w.db false c) [
    | inl f ↦ rw f.1 h
    | inr (row, g, due, taken, e) ↦ absurd (ground (arith, taken))
  ]
  Step-Inv w v (executes job started finished began outcome near early late) h = record {
    apart = h.apart;
    past = h.past;
    stamped = λ row k.
        Stamped-near w row started w.claims h.past (omega (arith, near.0, late))
          (ap (λ (j : ScheduledJob). j.last_run_at) (sym (put_row row _ w.db.jobs k)));
  }
  Step-Inv w v (edits job edited g same_stamp) h = record {
    apart = h.apart;
    past = h.past;
    stamped = λ row k. rw (← put_row row edited w.db.jobs k) (rw same_stamp (h.stamped job g));
  }
  Step-Inv w v deletes h = record {
    apart = h.apart;
    past = h.past;
    stamped = λ row k.
        absurd (ground (arith, get-remove job_id job_id w.db.jobs, eq_iff job_id job_id, k));
  }

  Reaches-Inv : (w v : World) → Inv w → Reaches dedupe skew longest job_id w v → Inv v
  Reaches-Inv w v h stay = h
  Reaches-Inv w v h (step_on u end r t) = Step-Inv u end t (Reaches-Inv w u h r)

  -- From a time at which no firing of the job was claimed: however many workers claim, execute, edit
  -- and delete it and in whatever order, with clocks that are off by no more than the skew and
  -- executions that each commit no more than `longest` after they began, any two claims of it that
  -- succeed are further apart in real time than the deduplication interval less twice the skew and
  -- less `longest`.
  pub claims-AreApart :
      (w v : World)
      → w.claims ≡ []
      → Reaches dedupe skew longest job_id w v
      → AreApart dedupe skew longest v.claims
  claims-AreApart w v e r =
      (Reaches-Inv w v (record { apart = rw e tt; past = rw e tt; stamped = λ job g. rw e tt })
        r).apart
