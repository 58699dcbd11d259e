-- ===== src/Jobs.antt =====
-- backend/app_db/jobs.py: the claim of a firing, the execution of a job, and its trigger. Times are
-- whole numbers of the unit of `FIRE_DEDUPE_SECONDS`.
pub mod Firing
mod Examples
use dbbuddy.Base.{
  ℕ, zero, suc, ◌+◌, Bool, true, false, ltb, leb, ◌&&◌, if◌then◌else◌, Option, none, some, String,
  ◌=ₛ◌, List, [], ◌∷◌, ◌++◌, Text, codes,
}
use dbbuddy.Base.Equality.{string_eq}
use dbbuddy.Base.Dict.{Dict, get, put, remove, or_default}

pub record ScheduleConfig : Type 0 where
  pub minutes : Option ℕ
  pub hour : Option ℕ
  pub minute : Option ℕ
  pub day_of_week : Option String

pub record ScheduledJob : Type 0 where
  pub name : Text
  pub user_id : String
  pub organization_id : Option String
  pub job_type : String
  pub schedule_kind : String
  pub schedule_config : ScheduleConfig
  pub enabled : Bool
  pub last_run_at : Option ℕ
  pub last_status : String
  pub last_error : Option String

pub record JobRun : Type 0 where
  pub job_id : String
  pub status : String
  pub message : String
  pub started_at : ℕ
  pub finished_at : ℕ

pub record Notification : Type 0 where
  pub user_id : String
  pub organization_id : Option String
  pub title : Text
  pub body : String
  pub level : String

-- The rows that jobs write, with the scheduled jobs by their ids.
pub record Db : Type 0 where
  pub jobs : Dict ScheduledJob
  pub runs : List JobRun
  pub notifications : List Notification

-- Never run, or last stamped before the cutoff.
unfoldable pub is_due : (dedupe now : ℕ) → Option ℕ → Bool
is_due dedupe now none = true
is_due dedupe now (some last) = ltb (last + dedupe) now

-- The conditional UPDATE of `_claim_fire`, and whether it matched a row.
unfoldable pub claim_fire : (dedupe : ℕ) → (job_id : String) → (now : ℕ) → Db → Db × Bool
unfolding is_due get put
claim_fire dedupe job_id now db = elim (get job_id db.jobs) [
  | none ↦ (db, false)
  | some job ↦
      if job.enabled && is_due dedupe now job.last_run_at
      then (
        record db {
          jobs =
              put job_id (record job { last_run_at = some now; last_status = "running" }) db.jobs;
        },
        true,
      )
      else (db, false)
]

-- What an executor of `_EXECUTORS` comes to: its message, or that of what it raised.
pub data Outcome : Type 0 where
  done : (message : String) → Outcome
  failed : (message : String) → Outcome

abbrev status_of : Outcome → String
status_of (done message) = "success"
status_of (failed message) = "error"

abbrev message_of : Outcome → String
message_of (done message) = message
message_of (failed message) = message

abbrev error_of : Outcome → Option String
error_of (done message) = none
error_of (failed message) = some message

-- `execute_job`, which commits once.
unfoldable pub execute_job :
    (job_id : String) → ScheduledJob → (started finished : ℕ) → Outcome → Db → Db
unfolding put
execute_job job_id job started finished outcome db = record {
  jobs =
      put job_id
        (record job {
          last_run_at = some started;
          last_status = status_of outcome;
          last_error = error_of outcome;
        })
        db.jobs;
  runs =
      record {
        job_id = job_id;
        status = status_of outcome;
        message = message_of outcome;
        started_at = started;
        finished_at = finished;
      }
      ∷ db.runs;
  notifications =
      record {
        user_id = job.user_id;
        organization_id = job.organization_id;
        title = job.name ++ (codes ": " ++ codes (status_of outcome));
        body = message_of outcome;
        level = status_of outcome;
      }
      ∷ db.notifications;
}

-- `CronTrigger` without a day fires every day.
pub data Trigger : Type 0 where
  interval : (minutes : ℕ) → Trigger
  cron : (day_of_week : Option String) (hour minute : ℕ) → Trigger

-- `max(1, n)`.
abbrev at_least_one : ℕ → ℕ
at_least_one zero = 1
at_least_one (suc n) = suc n

unfoldable pub trigger : ScheduledJob → Option Trigger
trigger job =
    let cfg = job.schedule_config in
    if job.schedule_kind =ₛ "interval"
    then some (interval (at_least_one (or_default 60 cfg.minutes)))
    else (if job.schedule_kind =ₛ "daily"
        then some (cron none (or_default 6 cfg.hour) (or_default 0 cfg.minute))
        else (if job.schedule_kind =ₛ "weekly"
            then some (
                cron (some (or_default "mon" cfg.day_of_week)) (or_default 6 cfg.hour)
                  (or_default 0 cfg.minute))
            else none))

-- The triggers of the scheduler, if it is running.
abbrev pub Scheduler : Type 0
Scheduler = Option (Dict Trigger)

unfoldable pub sync_job : (job_id : String) → ScheduledJob → Scheduler → Scheduler
unfolding trigger remove put
sync_job job_id job none = none
sync_job job_id job (some triggers) =
    let removed = remove job_id triggers in
    if job.enabled
    then (elim (trigger job) [ none ↦ some removed | some t ↦ some (put job_id t removed) ])
    else some removed
