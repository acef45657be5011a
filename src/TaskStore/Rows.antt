-- ===== src/TaskStore/Rows.antt =====
-- The rows of agents/_task_store.py, the tables that hold them, and the tests that many WHERE
-- clauses share. Times are milliseconds since the epoch.
use agents_python_cloudflare.Prelude.{
  ℕ, String, Bool, true, false, ◌&&◌, Option, none, some, List, ◌==◌, eqb, ltb, holds,
}
use agents_python_cloudflare.Sql.{update, changes, exists}

pub data RunState : Type 0 where
  pending running waiting completed failed cancelled : RunState

pub data StepState : Type 0 where
  running waiting completed failed : StepState

pub data StepKind : Type 0 where
  do_step sleep_step : StepKind

pub data WaitReason : Type 0 where
  sleep retry memory : WaitReason

pub record TaskRunRow : Type 0 where
  pub run_id : String
  pub definition : String
  pub input : Option String
  pub state : RunState
  pub result : Option String
  pub error_name : Option String
  pub error_message : Option String
  pub status_message : Option String
  pub metadata : Option String
  pub idempotency_key : Option String
  pub retain : ℕ
  pub attempt : ℕ
  pub generation : Option String
  pub next_at : Option ℕ
  pub wait_reason : Option WaitReason
  pub cancel_requested : ℕ
  pub cancel_reason : Option String
  pub created_at : ℕ
  pub started_at : Option ℕ
  pub updated_at : ℕ
  pub settled_at : Option ℕ

pub record TaskStepRow : Type 0 where
  pub run_id : String
  pub step_name : String
  pub kind : StepKind
  pub state : StepState
  pub result : Option String
  pub error_name : Option String
  pub error_message : Option String
  pub attempt : ℕ
  pub next_at : Option ℕ
  pub created_at : ℕ
  pub started_at : Option ℕ
  pub updated_at : ℕ
  pub completed_at : Option ℕ

-- The two tables.
pub record TaskStore : Type 0 where
  pub runs : List TaskRunRow
  pub steps : List TaskStepRow

-- state = 'running'
abbrev pub is_running : RunState → Bool
is_running RunState.running = true
is_running _ = false

-- state IN ('pending', 'waiting', 'running')
abbrev pub is_live : RunState → Bool
is_live RunState.pending = true
is_live RunState.running = true
is_live RunState.waiting = true
is_live _ = false

-- state IN ('completed', 'failed', 'cancelled')
abbrev pub is_terminal : RunState → Bool
is_terminal RunState.completed = true
is_terminal RunState.failed = true
is_terminal RunState.cancelled = true
is_terminal _ = false

-- WHERE run_id = ? AND generation = ? AND state = 'running'
abbrev pub is_claimed : String → String → TaskRunRow → Bool
is_claimed run_id generation r =
    r.run_id == run_id && (holds r.generation generation && is_running r.state)

-- WHERE run_id = ? AND generation = ? AND state = 'running' AND cancel_requested = 0
abbrev pub is_fenced : String → String → TaskRunRow → Bool
is_fenced run_id generation r =
    r.run_id == run_id
    && (holds r.generation generation && (is_running r.state && eqb r.cancel_requested 0))

-- EXISTS (SELECT 1 FROM cf_agents_task_runs WHERE …), the fence of a statement on steps
abbrev pub fence_holds : String → String → TaskStore → Bool
fence_holds run_id generation s = exists (is_fenced run_id generation) s.runs

-- WHERE run_id = ? AND step_name = ?
abbrev pub is_step : String → String → TaskStepRow → Bool
is_step run_id step_name t = t.run_id == run_id && t.step_name == step_name

-- An UPDATE of cf_agents_task_runs, and whether `_changes` reports a row.
abbrev pub update_runs :
    (TaskRunRow → Bool) → (TaskRunRow → TaskRunRow) → TaskStore → Bool × TaskStore
update_runs p f s = (ltb 0 (changes p s.runs), record s { runs = update p f s.runs })

-- An UPDATE of cf_agents_task_steps whose WHERE clause ends in the fence of its run.
abbrev pub update_steps :
    String
    → String
    → (TaskStepRow → Bool)
    → (TaskStepRow → TaskStepRow)
    → TaskStore
    → Bool × TaskStore
update_steps run_id generation p f s =
    let fence = fence_holds run_id generation s in
    let q : TaskStepRow → Bool = λ t. p t && fence in
    (ltb 0 (changes q s.steps), record s { steps = update q f s.steps })

abbrev pub commit : TaskStore → Option TaskStore → Bool × TaskStore
commit s none = (false, s)
commit s (some s') = (true, s')

-- transaction_sync(body), where the body may raise `_StoreFenceRejected`: `none` rolls back.
abbrev pub transaction : (TaskStore → Option TaskStore) → TaskStore → Bool × TaskStore
transaction body s = commit s (body s)
