-- ===== src/TaskStore/Steps.antt =====
-- The statements of agents/_task_store.py on the steps of a run.
use agents_python_cloudflare.Prelude.{
  ℕ, ◌+◌, String, Bool, true, false, ◌&&◌, ◌||◌, not, Option, none, some, ◌∷◌, ◌==◌, eqb, ltb,
  is_none, at_most, if◌then◌else◌,
}
use agents_python_cloudflare.Prelude.Order.{text_leb}
use agents_python_cloudflare.Sql.{exists, first, select, changes, order_by}
use agents_python_cloudflare.TaskStore.Rows.{
  StepState, StepKind, do_step, sleep_step, TaskStepRow, TaskStore, fence_holds, is_step,
  update_steps,
}

abbrev pub is_step_running : StepState → Bool
is_step_running StepState.running = true
is_step_running _ = false

abbrev pub is_step_waiting : StepState → Bool
is_step_waiting StepState.waiting = true
is_step_waiting _ = false

abbrev pub is_sleep : StepKind → Bool
is_sleep sleep_step = true
is_sleep do_step = false

-- `rest` decides between steps that started at one time; NULL is the least value, so it comes last.
abbrev pub later_start : Option ℕ → Option ℕ → Bool → Bool
later_start none none rest = rest
later_start none (some n) rest = false
later_start (some m) none rest = true
later_start (some m) (some n) rest = if ltb n m then true else if eqb n m then rest else false

-- ORDER BY started_at DESC, step_name DESC
unfoldable pub newer_step : TaskStepRow → TaskStepRow → Bool
newer_step a b = later_start a.started_at b.started_at (text_leb b.step_name a.step_name)

unfoldable pub newest_running_step : String → TaskStore → Option TaskStepRow
unfolding newer_step
newest_running_step run_id s =
    first (λ t. true)
      (order_by newer_step (select (λ t. t.run_id == run_id && is_step_running t.state) s.steps))

unfoldable pub get_step : String → String → TaskStore → Option TaskStepRow
get_step run_id step_name s = first (is_step run_id step_name) s.steps

unfoldable pub count_steps : String → TaskStore → ℕ
count_steps run_id s = changes (λ t. t.run_id == run_id) s.steps

-- INSERT OR IGNORE … SELECT … WHERE EXISTS fence: no row where the fence is down or the key is taken.
abbrev pub insert_or_ignore : String → String → TaskStepRow → TaskStore → Bool × TaskStore
insert_or_ignore run_id generation t s =
    if fence_holds run_id generation s && not (exists (is_step t.run_id t.step_name) s.steps)
    then (true, record s { steps = t ∷ s.steps })
    else (false, s)

unfoldable pub insert_step : String → String → String → ℕ → TaskStore → Bool × TaskStore
insert_step run_id generation step_name started_at = insert_or_ignore run_id generation (record {
  run_id = run_id;
  step_name = step_name;
  kind = do_step;
  state = StepState.running;
  result = none;
  error_name = none;
  error_message = none;
  attempt = 1;
  next_at = none;
  created_at = started_at;
  started_at = some started_at;
  updated_at = started_at;
  completed_at = none;
})

unfoldable pub insert_completed_sleep : String → String → String → ℕ → TaskStore → Bool × TaskStore
insert_completed_sleep run_id generation step_name completed_at =
    insert_or_ignore run_id generation (record {
      run_id = run_id;
      step_name = step_name;
      kind = sleep_step;
      state = StepState.completed;
      result = none;
      error_name = none;
      error_message = none;
      attempt = 0;
      next_at = none;
      created_at = completed_at;
      started_at = none;
      updated_at = completed_at;
      completed_at = some completed_at;
    })

unfoldable pub complete_sleep : String → String → String → ℕ → TaskStore → Bool × TaskStore
complete_sleep run_id generation step_name completed_at =
    update_steps run_id generation
      (λ t.
        is_step run_id step_name t
        && (is_sleep t.kind && (is_step_running t.state || is_step_waiting t.state)))
      (λ t. record t {
        state = StepState.completed;
        next_at = none;
        updated_at = completed_at;
        completed_at = some completed_at;
      })

abbrev pub is_restartable : String → String → ℕ → TaskStepRow → Bool
is_restartable run_id step_name started_at t =
    is_step run_id step_name t
    && (is_step_running t.state
        || (is_step_waiting t.state && (is_none t.next_at || at_most t.next_at started_at)))

unfoldable pub restart_step :
    String → String → String → ℕ → TaskStore → Option TaskStepRow × TaskStore
unfolding get_step
restart_step run_id generation step_name started_at s =
    let (changed, s') =
      update_steps run_id generation (is_restartable run_id step_name started_at)
        (λ t. record t {
          state = StepState.running;
          attempt = t.attempt + 1;
          next_at = none;
          started_at = some started_at;
          updated_at = started_at;
        })
        s in
    ((if changed then get_step run_id step_name s' else none), s')

-- WHERE run_id = ? AND step_name = ? AND state = 'running' AND attempt = ?
abbrev pub is_attempt : String → String → ℕ → TaskStepRow → Bool
is_attempt run_id step_name attempt t =
    is_step run_id step_name t && (is_step_running t.state && eqb t.attempt attempt)

unfoldable pub complete_step :
    String → String → String → ℕ → Option String → ℕ → TaskStore → Bool × TaskStore
complete_step run_id generation step_name attempt result completed_at =
    update_steps run_id generation (is_attempt run_id step_name attempt) (λ t. record t {
      state = StepState.completed;
      result = result;
      next_at = none;
      updated_at = completed_at;
      completed_at = some completed_at;
    })

unfoldable pub fail_step :
    String → String → String → ℕ → String → String → ℕ → TaskStore → Bool × TaskStore
fail_step run_id generation step_name attempt error_name error_message failed_at =
    update_steps run_id generation (is_attempt run_id step_name attempt) (λ t. record t {
      state = StepState.failed;
      error_name = some error_name;
      error_message = some error_message;
      next_at = none;
      updated_at = failed_at;
    })
