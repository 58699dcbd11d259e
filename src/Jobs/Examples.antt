-- ===== src/Jobs/Examples.antt =====
-- Tests of the jobs.
use dbbuddy.Base.{codes, ◌≡◌, refl, true, false, none, some, [], ◌∷◌, arith}
use dbbuddy.Jobs.{ScheduledJob, Db, done, claim_fire, execute_job, interval, trigger, sync_job}
use dbbuddy.Jobs.Firing.{
  World, passes, claims, executes, Reaches, stay, step_on, AreApart, claims-AreApart,
}

abbrev job : ScheduledJob
job = record {
  name = codes "sales";
  user_id = "u";
  organization_id = none;
  job_type = "report_refresh";
  schedule_kind = "interval";
  schedule_config = record { minutes = some 0; hour = none; minute = none; day_of_week = none };
  enabled = true;
  last_run_at = none;
  last_status = "";
  last_error = none;
}

abbrev db : Db
db = record { jobs = ("j", job) ∷ []; runs = []; notifications = [] }

every_minute : trigger job ≡ some (interval 1)
unfolding trigger
every_minute = refl

scheduled : sync_job "j" job (some []) ≡ some (("j", interval 1) ∷ [])
unfolding sync_job
scheduled = refl

second_worker_stands_down : (claim_fire 30 "j" 101 (claim_fire 30 "j" 100 db).0).1 ≡ false
unfolding claim_fire
second_worker_stands_down = refl

-- A run of 75 seconds overwrites the stamp of the claim at 60, and the claim at 76 succeeds too.
claimed_again :
    let claimed = claim_fire 30 "j" 60 db in
    let ran = execute_job "j" job 0 75 (done "ok") claimed.0 in
    (claimed.1 ≡ true) × ((claim_fire 30 "j" 76 ran).1 ≡ true)
unfolding claim_fire execute_job
claimed_again = (refl, refl)

abbrev w0 : World
w0 = record { db = db; clock = 100; claims = [] }

abbrev w1 : World
unfolding claim_fire
w1 = record w0 { db = (claim_fire 30 "j" 101 w0.db).0; claims = 100 ∷ [] }

abbrev w1' : World
unfolding claim_fire
w1' = record w1 { clock = 110 }

abbrev w2 : World
unfolding claim_fire execute_job
w2 = record w1' { db = execute_job "j" job 100 110 (done "ok") w1.db }

abbrev w3 : World
unfolding claim_fire execute_job
w3 = record w2 { clock = 150 }

abbrev w4 : World
unfolding claim_fire execute_job
w4 = record w3 { db = (claim_fire 30 "j" 149 w3.db).0; claims = 150 ∷ 100 ∷ [] }

w4-Reaches : Reaches 30 2 10 "j" w0 w4
unfolding claim_fire execute_job
w4-Reaches =
    step_on w3 w4
      (step_on w2 w3
        (step_on w1' w2
          (step_on w1 w1' (step_on w0 w1 stay (claims 101 (omega arith) refl)) (passes 10))
          (executes job 100 110 100 (done "ok") (omega arith) (omega arith) (omega arith)))
        (passes 40))
      (claims 149 (omega arith) refl)

claims-AreApart_example : AreApart 30 2 10 (150 ∷ 100 ∷ [])
unfolding claim_fire execute_job
claims-AreApart_example = claims-AreApart 30 2 10 "j" w0 w4 refl w4-Reaches
