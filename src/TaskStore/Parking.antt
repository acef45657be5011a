-- ===== src/TaskStore/Parking.antt =====
-- The transactions of agents/_task_store.py that park a run: the step and the run change together,
-- or neither does.
use agents_python_cloudflare.Prelude.{ℕ, String, Bool, Option, none, some, if◌then◌else◌}
use agents_python_cloudflare.TaskStore.Rows.{
  RunState, StepState, sleep_step, TaskRunRow, TaskStepRow, WaitReason, sleep, retry, TaskStore,
  is_fenced, update_runs, update_steps, transaction,
}
use agents_python_cloudflare.TaskStore.Steps.{insert_or_ignore, is_attempt}

abbrev pub parked_row : WaitReason → ℕ → ℕ → TaskRunRow → TaskRunRow
parked_row reason wake_at updated_at r = record r {
  state = RunState.waiting;
  generation = none;
  next_at = some wake_at;
  wait_reason = some reason;
  updated_at = updated_at;
}

-- `none` is `_StoreFenceRejected`.
unfoldable pub park_run : String → String → WaitReason → ℕ → ℕ → TaskStore → Option TaskStore
park_run run_id generation reason wake_at updated_at s =
    let (changed, s') =
      update_runs (is_fenced run_id generation) (parked_row reason wake_at updated_at) s in
    if changed then some s' else none

abbrev pub waiting_sleep : String → String → ℕ → ℕ → TaskStepRow
waiting_sleep run_id step_name wake_at updated_at = record {
  run_id = run_id;
  step_name = step_name;
  kind = sleep_step;
  state = StepState.waiting;
  result = none;
  error_name = none;
  error_message = none;
  attempt = 0;
  next_at = some wake_at;
  created_at = updated_at;
  started_at = none;
  updated_at = updated_at;
  completed_at = none;
}

-- The nested function `park` of `park_new_sleep`.
unfoldable pub insert_and_park : String → String → String → ℕ → ℕ → TaskStore → Option TaskStore
insert_and_park run_id generation step_name wake_at updated_at s =
    let (changed, s') =
      insert_or_ignore run_id generation (waiting_sleep run_id step_name wake_at updated_at) s in
    if changed then park_run run_id generation sleep wake_at updated_at s' else none

unfoldable pub park_new_sleep : String → String → String → ℕ → ℕ → TaskStore → Bool × TaskStore
park_new_sleep run_id generation step_name wake_at updated_at =
    transaction (insert_and_park run_id generation step_name wake_at updated_at)

unfoldable pub park_existing_sleep : String → String → ℕ → ℕ → TaskStore → Bool × TaskStore
park_existing_sleep run_id generation wake_at updated_at =
    transaction (park_run run_id generation sleep wake_at updated_at)

abbrev pub waiting_retry : ℕ → ℕ → TaskStepRow → TaskStepRow
waiting_retry wake_at updated_at t = record t {
  state = StepState.waiting;
  next_at = some wake_at;
  updated_at = updated_at;
}

-- The nested function `park` of `park_step_retry`.
unfoldable pub retry_and_park : String → String → String → ℕ → ℕ → ℕ → TaskStore → Option TaskStore
retry_and_park run_id generation step_name attempt wake_at updated_at s =
    let (changed, s') =
      update_steps run_id generation (is_attempt run_id step_name attempt)
        (waiting_retry wake_at updated_at) s in
    if changed then park_run run_id generation retry wake_at updated_at s' else none

unfoldable pub park_step_retry : String → String → String → ℕ → ℕ → ℕ → TaskStore → Bool × TaskStore
park_step_retry run_id generation step_name attempt wake_at updated_at =
    transaction (retry_and_park run_id generation step_name attempt wake_at updated_at)
