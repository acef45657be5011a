-- ===== src/Driver/Examples.antt =====
-- The theorems on the driver at a job that two overlapping alarms claim, and that is retried and struck.
use agents_python_cloudflare.Prelude.{
  ℕ, ◌≡◌, refl, String, true, false, none, some, List, [], ◌∷◌, arith, leb, if◌then◌else◌,
}
use agents_python_cloudflare.Sql.{first, select, order_by}
use agents_python_cloudflare.Jobs.Rows.{Job, JobRow, finished, returned, Wire}
use agents_python_cloudflare.Jobs.Queue.{
  Table, has_exclusive, valid_exclusive_time, first_valid_time,
}
use agents_python_cloudflare.Jobs.Execution.{due_row, apply_outcome}
use agents_python_cloudflare.Driver.State.{Driver, new_driver, start_claim, begin_claim}
use agents_python_cloudflare.Driver.Events.{Event, step, run, touched, lasts}
use agents_python_cloudflare.Driver.Drive.{runs, claim_job, settle_job}
use agents_python_cloudflare.Driver.Claims.{settle_job-touched, claim_job-reclaims}
use agents_python_cloudflare.Driver.Attempts.{Answer, attempt_job}
use agents_python_cloudflare.Driver.Retries.{Leaves, attempt_job_correct}

abbrev codec : Wire String
codec = record {
  dumps = λ j. j;
  loads = λ text. some text;
  dumps_retry = λ r. "{}";
  loads_retry = λ text. some [];
}

abbrev due : JobRow
due = record {
  id = "j1";
  capability = "schedules";
  fn = "tick";
  time = 500;
  payload = none;
  retry_options = none;
  singleflight = 0;
  hung_timeout_seconds = none;
  exclusive = 0;
  recovery_loop = 1;
  running = 0;
  execution_started_at = none;
  created_at = 1;
}

abbrev jobs : Table
jobs = due ∷ record due { id = "j2"; time = 900; exclusive = 0 } ∷ []

abbrev claimed : JobRow
claimed = record due { running = 1; execution_started_at = some 600 }

first_claim : (claim_job codec false "j1" 600 jobs new_driver).0 ≡ runs claimed 1
unfolding claim_job has_exclusive valid_exclusive_time first_valid_time due_row start_claim
    begin_claim first order_by select
first_claim = refl

-- The other alarm claims another job, and the job is pushed again.
abbrev meanwhile : List Event
meanwhile = Event.begin_alarm ∷ Event.begin_claim "j2" 600 ∷ Event.note_mutation "j1" ∷ []

settle_job-touched_example :
    settle_job false claimed 1 finished jobs
      (run meanwhile (claim_job codec false "j1" 600 jobs new_driver).2)
    ≡ (if touched "j1" meanwhile then (returned tt, jobs) else apply_outcome claimed finished jobs)
settle_job-touched_example =
    settle_job-touched codec false "j1" 600 jobs jobs new_driver claimed 1 meanwhile finished
      first_claim (unfold lasts in refl)

abbrev running_jobs : Table
running_jobs = claimed ∷ []

abbrev between : List Event
between = Event.begin_alarm ∷ []

abbrev reclaimed : JobRow
reclaimed = record due { running = 1; execution_started_at = some 601 }

second_claim :
    (claim_job codec false "j1" 600 running_jobs
      (run between (claim_job codec false "j1" 600 jobs new_driver).2)).0
    ≡ runs reclaimed 2
unfolding claim_job has_exclusive valid_exclusive_time first_valid_time due_row start_claim
    begin_claim run first order_by select step
second_claim = refl

claim_job-reclaims_example :
    (apply_outcome claimed finished
      (claim_job codec false "j1" 600 running_jobs
        (run between (claim_job codec false "j1" 600 jobs new_driver).2)).1).1
    ≡ (claim_job codec false "j1" 600 running_jobs
        (run between (claim_job codec false "j1" 600 jobs new_driver).2)).1
claim_job-reclaims_example =
    claim_job-reclaims codec false false "j1" "j1" 600 600 jobs running_jobs new_driver claimed
      reclaimed 1 2 between finished first_claim second_claim refl

abbrev flaky : ℕ → Answer
flaky attempt =
    if leb attempt 1
    then Answer.fails (record {
      is_code_update_reset = false;
      is_memory_limit_reset = false;
      is_transient = true;
    })
    else Answer.returns finished

attempt_job_correct_example :
    Leaves flaky
      (λ attempt. false)
      1
      3
      (attempt_job flaky (λ attempt. false) 3).1
      (attempt_job flaky (λ attempt. false) 3).0
attempt_job_correct_example = attempt_job_correct flaky (λ attempt. false) 3 (ground arith)

abbrev driver : Driver
driver = (claim_job codec false "j1" 600 jobs new_driver).2

abbrev read : Job String
read = record {
  id = "j1";
  capability = "schedules";
  fn = "tick";
  time = 500;
  payload = none;
  payload_present = false;
  retry = none;
  singleflight = false;
  exclusive = false;
  recovery_loop = true;
  created_at = 1;
}
