-- ===== src/Jobs/Examples.antt =====
-- The theorems on the job queue at a table of two jobs, one of them running, and a codec that reads
-- back the one payload and the one set of retry options that are written.
use mathlib.Core.List.{Perm, Memᴰ}
use agents_python_cloudflare.Prelude.{
  is_some, ◌==◌, ℕ, ◌≡◌, refl, ◌≢◌, ◌≤◌, ◌<◌, ◌⊎◌, String, Bool, true, false, none, some, [], ◌∷◌,
  arith, eq_iff,
}
use mathlib.Core.Logic.{◌↔◌}
use agents_python_cloudflare.Sql.{exists, first, select, order_by}
use agents_python_cloudflare.Jobs.Rows.{
  Job, Number, int, float, flag, Retry, PushOptions, JobRow, finished, returned, Wire, IsFaithful,
}
use agents_python_cloudflare.Jobs.Validation.{
  max_sqlite_integer, float_overflow, validate_time, validate_retry, validate_job_flags, is_blank,
}
use agents_python_cloudflare.Jobs.Codec.{encode_retry}
use agents_python_cloudflare.Jobs.Queue.{
  Table, new_row, push, cancel, reschedule, valid_exclusive_time, first_valid_time,
}
use agents_python_cloudflare.Jobs.Execution.{apply_outcome, is_due, due}
use agents_python_cloudflare.Jobs.Alarm.{
  min_of, ready_time, recheck_time, ordinary_alarm, next_alarm_time,
}
use agents_python_cloudflare.Sql.Keys.{IsUnique}
use agents_python_cloudflare.Jobs.Ownership.{jobs_of, jobs_of-owner}
use agents_python_cloudflare.Jobs.Pushing.{IsFloor, validate_time_bounds, IsPushed, push_owned}
use agents_python_cloudflare.Jobs.Intents.{repush-outcome}
use agents_python_cloudflare.Jobs.Waking.{
  IsLet, IsCovered, IsExclusiveTime, Ascends, next_alarm_time-covers, next_alarm_time-later,
  due_correct,
}

abbrev retries : Retry
retries = ("maxAttempts", int 5) ∷ []

abbrev codec : Wire String
codec = record {
  dumps = λ j. j;
  loads = λ text. some text;
  dumps_retry = λ r. "{\"maxAttempts\":5}";
  loads_retry = λ text. some retries;
}

abbrev options : PushOptions String
options = record {
  fn = "tick";
  time = int 500;
  payload = some "[1]";
  id = some "j1";
  retry = some retries;
  singleflight = flag true;
  hung_timeout_seconds = none;
  exclusive = flag false;
  recovery_loop = flag false;
}

options-IsFaithful : IsFaithful codec options
options-IsFaithful = record { payload_reads = λ j e. refl; retry_reads = λ r e. ground arith }

abbrev row : JobRow
row = record {
  id = "j1";
  capability = "schedules";
  fn = "tick";
  time = 500;
  payload = some "[1]";
  retry_options = some "{\"maxAttempts\":5}";
  singleflight = 1;
  hung_timeout_seconds = none;
  exclusive = 0;
  recovery_loop = 0;
  running = 0;
  execution_started_at = none;
  created_at = 7;
}

abbrev running_row : JobRow
running_row = record row { running = 1; execution_started_at = some 510 }

abbrev other_row : JobRow
other_row = record row { id = "j2"; capability = "tasks"; created_at = 3 }

abbrev jobs : Table
jobs = running_row ∷ other_row ∷ []

validate_time_bounds_example : (7 ≤ max_sqlite_integer) × IsFloor (float 31 2) 7
validate_time_bounds_example = validate_time_bounds (float 31 2) 7 (unfold validate_time in refl)

schedules_not_tasks : ◌≢◌ {A = String} "schedules" "tasks"
schedules_not_tasks = ground (arith, eq_iff "schedules" "tasks")

jobs_of-owner_example :
    ((validate : Bool) (generated : String) (now : ℕ) (o : PushOptions String)
      → jobs_of "tasks" (push codec validate generated now "schedules" o jobs).1
        ≡ jobs_of "tasks" jobs)
    × ((k : String) → jobs_of "tasks" (cancel "schedules" k jobs).1 ≡ jobs_of "tasks" jobs)
    × ((k : String) (n : Number)
        → jobs_of "tasks" (reschedule "schedules" k n jobs).1 ≡ jobs_of "tasks" jobs)
jobs_of-owner_example = jobs_of-owner codec "schedules" "tasks" jobs schedules_not_tasks

accepted_row : new_row codec true "g" 7 "schedules" options ≡ returned row
unfolding new_row validate_time float_overflow is_blank encode_retry validate_retry
    validate_job_flags
accepted_row = refl

accepted_row2 :
    new_row codec true "g" 7 "schedules" (record options { id = some "j2" })
    ≡ returned (record row { id = "j2" })
unfolding new_row validate_time float_overflow is_blank encode_retry validate_retry
    validate_job_flags
accepted_row2 = refl

jobs-IsUnique : IsUnique (λ (r : JobRow). r.id == row.id) jobs
unfolding exists
jobs-IsUnique = ground arith

push_owned_example :
    (job : Job String) × (r : JobRow) × IsPushed codec true "g" 7 "schedules" options
      options-IsFaithful row accepted_row jobs jobs-IsUnique job r
push_owned_example =
    push_owned codec true "g" 7 "schedules" options options-IsFaithful row accepted_row jobs
      jobs-IsUnique (λ r e. unfold first in ground arith)

repush-outcome_example :
    (apply_outcome running_row finished (push codec true "g" 7 "schedules" options jobs).1).1
    ≡ (push codec true "g" 7 "schedules" options jobs).1
repush-outcome_example =
    repush-outcome codec true "g" 7 "schedules" options row running_row jobs finished
      options-IsFaithful accepted_row (unfold exists in ground arith)
      (λ r e. unfold first in ground arith) refl

all-IsLet : IsLet (valid_exclusive_time codec jobs) running_row
unfolding valid_exclusive_time select order_by first_valid_time
all-IsLet = tt

next_521 : next_alarm_time codec 520 jobs ≡ some 521
unfolding next_alarm_time valid_exclusive_time select order_by first_valid_time ordinary_alarm
    ready_time recheck_time min_of
next_521 = refl

next_alarm_time-covers_example : IsCovered 520 (next_alarm_time codec 520 jobs) running_row
next_alarm_time-covers_example =
    next_alarm_time-covers 520 jobs running_row (Memᴰ.head refl) (omega arith) (omega arith)
      (omega arith) codec (omega arith, (omega arith, tt)) all-IsLet

next_alarm_time-later_example :
    (520 < 521) ⊎ ((is_some (valid_exclusive_time codec jobs) ≡ true) × IsExclusiveTime jobs 521)
next_alarm_time-later_example = next_alarm_time-later codec 520 521 jobs next_521

due_correct_example :
    Perm (due 600 false jobs) (select (is_due 600 false) jobs)
    × ((r : JobRow)
        → (is_due 600 false r ≡ true) ↔ ((r.time ≤ 600) × (false ≡ true → r.exclusive ≡ 1)))
    × Ascends (due 600 false jobs)
due_correct_example = due_correct 600 false jobs
