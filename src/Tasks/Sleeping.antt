-- ===== src/Tasks/Sleeping.antt =====
-- The durable sleeps and the status messages of the class `TaskStep` of agents/tasks.py.
use agents_python_cloudflare.Prelude.{
  ℕ, String, Bool, true, false, ◌&&◌, ◌||◌, not, Option, none, some, leb, ltb, holds, coalesce,
  if◌then◌else◌,
}
use agents_python_cloudflare.TaskStore.Rows.{StepState, sleep, TaskStepRow, TaskStore}
use agents_python_cloudflare.TaskStore.Runs.{update_status}
use agents_python_cloudflare.TaskStore.Steps.{get_step, complete_sleep, insert_completed_sleep}
use agents_python_cloudflare.TaskStore.Parking.{park_new_sleep, park_existing_sleep}
use agents_python_cloudflare.Tasks.Policy.{max_sqlite_integer}
use agents_python_cloudflare.Tasks.Step.{
  TaskStep, StepResult, returns, suspends, superseded, invalid_deadline, diverged, goes_on,
  ensure_attempt_current, enter_step, is_do, on_entry, is_going_on, or_superseded,
}

-- `_sleep_at` without a row of the step.
unfoldable pub new_sleep : ℕ → ℕ → String → TaskStep → TaskStore → StepResult × TaskStore
new_sleep wake_at now name t s =
    if ltb max_sqlite_integer wake_at
    then (invalid_deadline, s)
    else if leb wake_at now
    then or_superseded (insert_completed_sleep t.run_id t.generation name now s) (returns none)
    else or_superseded (park_new_sleep t.run_id t.generation name wake_at now s)
        (suspends wake_at sleep)

unfoldable pub old_sleep : TaskStepRow → ℕ → String → TaskStep → TaskStore → StepResult × TaskStore
old_sleep row now name t s =
    let wake_at = coalesce row.next_at 0 in
    if ltb now wake_at
    then or_superseded (park_existing_sleep t.run_id t.generation wake_at now s)
        (suspends wake_at sleep)
    else or_superseded (complete_sleep t.run_id t.generation name now s) (returns none)

abbrev pub is_completed : StepState → Bool
is_completed StepState.completed = true
is_completed _ = false

unfoldable pub look_up_sleep : ℕ → ℕ → String → TaskStep → TaskStore → StepResult × TaskStore
unfolding new_sleep old_sleep
look_up_sleep wake_at now name t s = elim (get_step t.run_id name s) [
  | none ↦ new_sleep wake_at now name t s
  | some row ↦
      if is_do row.kind
      then (diverged row.kind, s)
      else if is_completed row.state
      then (returns none, s)
      else old_sleep row now name t s
]

-- A sleep makes the step live wherever its row is missing or not completed.
abbrev pub is_fresh_sleep : Option TaskStepRow → Bool
is_fresh_sleep none = true
is_fresh_sleep (some row) = not (is_do row.kind) && not (is_completed row.state)

-- `_sleep_at`, whose only await comes after its last write.
unfoldable pub sleep_at : ℕ → ℕ → String → TaskStep → TaskStore → StepResult × TaskStep × TaskStore
unfolding enter_step look_up_sleep
sleep_at wake_at now name t s =
    let (entry, t') = enter_step name t s in
    let (result, s') = on_entry entry (look_up_sleep wake_at now name t s) s in
    let live = is_going_on entry && is_fresh_sleep (get_step t.run_id name s) in
    (result, record t' { live = t'.live || live }, s')

unfoldable pub update_status_once :
    String → ℕ → TaskStep → TaskStore → StepResult × TaskStep × TaskStore
update_status_once message now t s =
    let (updated, s') = update_status t.run_id t.generation message now s in
    if not t.live || holds t.last_status message
    then (returns none, t, s)
    else if updated
    then (returns none, record t { last_status = some message }, s')
    else (superseded, t, s')

abbrev pub on_status_entry :
    StepResult
    → StepResult × TaskStep × TaskStore
    → TaskStep
    → TaskStore
    → StepResult × TaskStep × TaskStore
on_status_entry (goes_on n) next t s = next
on_status_entry stopped next t s = (stopped, t, s)

unfoldable pub status : String → ℕ → TaskStep → TaskStore → StepResult × TaskStep × TaskStore
unfolding ensure_attempt_current update_status_once
status message now t s =
    on_status_entry (ensure_attempt_current t.run_id t.generation s (goes_on 0))
      (update_status_once message now t s) t s
