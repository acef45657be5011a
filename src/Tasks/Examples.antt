-- ===== src/Tasks/Examples.antt =====
-- The theorems on tasks at concrete tables: a run that is claimed, with a running step, and one that
-- is accepted under a key.
use agents_python_cloudflare.Prelude.{
  ◌≡◌, ◌≢◌, refl, String, none, some, List, [], ◌∷◌, true, false, arith, eq_iff,
}
use Prim.Native.Nat.{min}
use agents_python_cloudflare.Sql.{exists, first, changes, update}
use agents_python_cloudflare.TaskStore.Rows.{
  RunState, StepState, do_step, TaskRunRow, TaskStepRow, TaskStore,
}
use agents_python_cloudflare.TaskStore.Runs.{
  get, pending_row, claim_run, insert_pending, get_by_idempotency_key,
}
use agents_python_cloudflare.TaskStore.Steps.{get_step, complete_step}
use agents_python_cloudflare.TaskStore.Trace.{Op, run}
use agents_python_cloudflare.TaskStore.Invariant.{IsValid}
use agents_python_cloudflare.Tasks.Policy.{
  ResolvedStepPolicy, Backoff, retry_delay, max_retry_delay_ms, validate_step_name,
  validate_deadline,
}
use agents_python_cloudflare.Tasks.Step.{
  TaskStep, returned, returns, goes_on, finish_step, run_step, enter_step,
}
use agents_python_cloudflare.Tasks.Attempt.{claims, claim_attempt}
use agents_python_cloudflare.Tasks.Callers.{Request, TaskReceipt, receives, accept, existing_run}
use agents_python_cloudflare.Tasks.Delays.{unbounded, retry_delay_correct}
use agents_python_cloudflare.Tasks.Replay.{run_step-finish_step}
use agents_python_cloudflare.Tasks.Superseded.{WritesNothing, claim_attempt-supersedes}
use agents_python_cloudflare.Tasks.Joining.{accept-accept}

abbrev policy : ResolvedStepPolicy
policy = record {
  retry_limit = 5;
  retry_delay_ms = 1_000;
  backoff = Backoff.exponential;
  timeout_ms = 300_000;
}

retry_delay_correct_example :
    retry_delay policy 20 ≡ min (unbounded Backoff.exponential 1_000 20) max_retry_delay_ms
retry_delay_correct_example = retry_delay_correct policy 20

abbrev busy : TaskRunRow
busy = record (pending_row "b" "report" none none (some "k") true 5) {
  state = RunState.running;
  attempt = 1;
  generation = some "g1";
  next_at = some 100;
  started_at = some 10;
}

abbrev fetching : TaskStepRow
fetching = record {
  run_id = "b";
  step_name = "fetch";
  kind = do_step;
  state = StepState.running;
  result = none;
  error_name = none;
  error_message = none;
  attempt = 1;
  next_at = none;
  created_at = 11;
  started_at = some 11;
  updated_at = 12;
  completed_at = none;
}

abbrev tables : TaskStore
tables = record { runs = busy ∷ []; steps = fetching ∷ [] }

tables-IsValid : IsValid tables
unfolding exists
tables-IsValid = ground arith

abbrev attempt_1 : TaskStep
attempt_1 = record {
  run_id = "b";
  generation = "g1";
  live = true;
  used_names = "fetch" ∷ [];
  last_status = none;
}

-- A later attempt, which has taken the run over at 120.
abbrev attempt_2 : TaskStep
attempt_2 = record attempt_1 { generation = "g2"; used_names = []; live = false }

abbrev between : List Op
between = Op.claim_run "b" "g2" 120 400 ∷ []

abbrev recorded_at_20 : TaskStore
recorded_at_20 = (finish_step policy 20 "fetch" 1 (returned (some "7")) attempt_1 tables).1

entered : (enter_step "fetch" attempt_2 (run between recorded_at_20)).0 ≡ goes_on 0
unfolding enter_step finish_step run changes first update validate_step_name get claim_run
    complete_step exists
entered = refl

run_step-finish_step_example :
    ((run_step policy 130 131 "fetch" attempt_2 (run between recorded_at_20)).0
      ≡ returns (some "7"))
    × ((run_step policy 130 131 "fetch" attempt_2 (run between recorded_at_20)).2
        ≡ run between recorded_at_20)
run_step-finish_step_example =
    run_step-finish_step policy policy 20 130 131 "fetch" 1 (some "7") attempt_1 attempt_2 tables
      fetching between 0 tables-IsValid (unfold get_step first in refl) refl
      (unfold finish_step complete_step exists changes first update in refl) (ground arith) refl
      entered

abbrev reclaimed : TaskRunRow
reclaimed = record busy {
  attempt = 2;
  generation = some "g2";
  next_at = some 330_120;
  updated_at = 120;
}

claimed :
    (claim_attempt busy "g2" 300_000 "ValueError" "deadline" 120 120 tables).0 ≡ claims reclaimed
unfolding claim_attempt claim_run changes first update validate_deadline
claimed = refl

g1_not_g2 : ◌≢◌ {A = String} "g1" "g2"
g1_not_g2 = ground (arith, eq_iff "g1" "g2")

claim_attempt-supersedes_example :
    WritesNothing attempt_1
      (claim_attempt busy "g2" 300_000 "ValueError" "deadline" 120 120 tables).1
claim_attempt-supersedes_example =
    claim_attempt-supersedes busy reclaimed "g2" 300_000 "ValueError" "deadline" 120 120 tables
      attempt_1 tables-IsValid claimed refl g1_not_g2

-- What happens while the second attempt runs: a late word of the first, a step of its own, a claim.
abbrev meanwhile : List Op
meanwhile =
    Op.update_status "b" "g1" "late" 130
    ∷ Op.complete_step "b" "g2" "fetch" 1 (some "8") 131
    ∷ Op.claim_run "b" "g4" 150 250
    ∷ []

abbrev request : Request
request = record {
  definition = "report";
  input_json = some "3";
  run_id = none;
  idempotency_key = some "k2";
  metadata_json = none;
  retain = true;
}

abbrev receipt : TaskReceipt
receipt = record {
  run_id = "task_1";
  definition = "report";
  accepted = true;
  state = RunState.pending;
  created_at = 30;
}

accepted : (accept "task_1" 30 request tables).0 ≡ receives receipt
unfolding accept existing_run insert_pending exists first get_by_idempotency_key
accepted = refl

accept-accept_example :
    (state : RunState) × (accept "task_2" 40 request
        (run between (accept "task_1" 30 request tables).1)
      ≡ (
        receives (record receipt { accepted = false; state = state }),
        run between (accept "task_1" 30 request tables).1,
      ))
accept-accept_example =
    accept-accept "task_1" "task_2" 30 40 request tables receipt "k2" between tables-IsValid refl
      accepted refl (ground arith)
