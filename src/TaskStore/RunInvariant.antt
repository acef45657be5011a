-- ===== src/TaskStore/RunInvariant.antt =====
-- What holds of one run and of one step between two statements, and how a statement may change one.
use agents_python_cloudflare.Prelude.{ℕ, ◌≤◌, ◌<◌, ◌≡◌, Bool, true, false, ◌||◌, ltb, is_some}
use agents_python_cloudflare.TaskStore.Rows.{
  RunState, StepState, do_step, TaskRunRow, TaskStepRow, is_live, is_terminal, is_running,
}
use agents_python_cloudflare.TaskStore.Steps.{is_step_running, is_step_waiting}

pub record IsValidRun (r : TaskRunRow) : Type 0 where
  -- A claim is held only while the run is running.
  pub claim_running : is_some r.generation ≡ true → is_running r.state ≡ true
  -- A live run has a deadline; a settled one has no deadline, and the time it settled at.
  pub live_deadline : is_some r.next_at ≡ is_live r.state
  pub terminal_settled : is_some r.settled_at ≡ is_terminal r.state
  pub started : is_some r.started_at ≡ ltb 0 r.attempt
  pub pending_unstarted : r.state ≡ RunState.pending → r.attempt ≡ 0
  pub running_started : is_running r.state ≡ true → 0 < r.attempt
  pub cancel_flag : r.cancel_requested ≤ 1
  -- A cancellation is pending only for a claimed run.
  pub cancel_claimed : r.cancel_requested ≡ 1 → is_live r.state ≡ true → is_some r.generation ≡ true
  pub cancelled_flag : r.state ≡ RunState.cancelled → r.cancel_requested ≡ 1

abbrev pub is_completed : StepState → Bool
is_completed StepState.completed = true
is_completed _ = false

pub record IsValidStep (t : TaskStepRow) : Type 0 where
  -- Exactly the waiting steps have a deadline, and the completed ones the time they completed at.
  pub waiting_deadline : is_some t.next_at ≡ is_step_waiting t.state
  pub completed_time : is_some t.completed_at ≡ is_completed t.state
  pub failed_error :
      t.state ≡ StepState.failed → (is_some t.error_name ≡ true) × (is_some t.error_message ≡ true)
  pub do_started : t.kind ≡ do_step → (0 < t.attempt) × (is_some t.started_at ≡ true)

-- How far a run has come: pending, then under way, then settled.
abbrev pub rank : RunState → ℕ
rank RunState.pending = 0
rank RunState.running = 1
rank RunState.waiting = 1
rank _ = 2

-- The columns that no statement sets, and those that only grow.
pub record Advances (r r' : TaskRunRow) : Type 0 where
  pub run_id : r'.run_id ≡ r.run_id
  pub definition : r'.definition ≡ r.definition
  pub input : r'.input ≡ r.input
  pub metadata : r'.metadata ≡ r.metadata
  pub idempotency_key : r'.idempotency_key ≡ r.idempotency_key
  pub retain : r'.retain ≡ r.retain
  pub created_at : r'.created_at ≡ r.created_at
  pub attempt : r.attempt ≤ r'.attempt
  pub rank : rank r.state ≤ rank r'.state

-- What an UPDATE may make of a run: only a live run changes.
pub record RunStep (r r' : TaskRunRow) : Type 0 where
  pub live : is_live r.state ≡ true
  pub advances : Advances r r'
  pub valid : IsValidRun r → IsValidRun r'

pub record StepAdvances (t t' : TaskStepRow) : Type 0 where
  pub run_id : t'.run_id ≡ t.run_id
  pub step_name : t'.step_name ≡ t.step_name
  pub kind : t'.kind ≡ t.kind
  pub created_at : t'.created_at ≡ t.created_at
  pub attempt : t.attempt ≤ t'.attempt

-- What an UPDATE may make of a step: only a step that has neither completed nor failed changes.
pub record StepStep (t t' : TaskStepRow) : Type 0 where
  pub open_step : (is_step_running t.state || is_step_waiting t.state) ≡ true
  pub advances : StepAdvances t t'
  pub valid : IsValidStep t → IsValidStep t'
