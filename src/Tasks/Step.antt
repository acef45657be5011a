-- ===== src/Tasks/Step.antt =====
-- The class `TaskStep` of agents/tasks.py: named work that is done once and replayed afterwards. `run_step` is the part of `_do` before its first await, `resume_step` the part
-- between that and the callback, and `finish_step` the part after the callback.
use agents_python_cloudflare.Prelude.{
  ℕ, ◌+◌, String, Bool, true, false, ◌&&◌, ◌||◌, not, Option, none, some, List, [], ◌∷◌, ◌==◌, eqb,
  leb, ltb, holds, coalesce, if◌then◌else◌,
}
use agents_python_cloudflare.TaskStore.Rows.{
  StepState, StepKind, do_step, sleep_step, WaitReason, retry, TaskRunRow, TaskStepRow, TaskStore,
  is_running,
}
use agents_python_cloudflare.TaskStore.Runs.{get, refresh_claim}
use agents_python_cloudflare.TaskStore.Steps.{
  get_step, count_steps, insert_step, restart_step, complete_step, fail_step,
}
use agents_python_cloudflare.TaskStore.Parking.{park_step_retry}
use agents_python_cloudflare.Tasks.Policy.{
  ResolvedStepPolicy, max_steps_per_run, claim_slack_ms, retry_delay, validate_step_name,
  validate_deadline,
}

pub record TaskStep : Type 0 where
  pub run_id : String
  pub generation : String
  pub live : Bool
  pub used_names : List String
  pub last_status : Option String

-- What a call on a step comes to: it returns (a stored result is text, read back by the caller),
-- raises, or goes on: to the callback, under the number of the attempt.
pub data StepResult : Type 0 where
  returns : Option String → StepResult
  persisted_error : String → String → StepResult
  reraises : StepResult
  suspends : ℕ → WaitReason → StepResult
  superseded : StepResult
  cancelled : Option String → StepResult
  invalid_name duplicate_step too_many_steps not_recorded invalid_deadline : StepResult
  diverged : StepKind → StepResult
  goes_on : ℕ → StepResult

-- How a callback ended. `failed` has whether the error is one that is not retried, and its summary.
pub data CallbackEnd : Type 0 where
  returned : Option String → CallbackEnd
  interrupted : CallbackEnd
  cancelled_by : Option String → CallbackEnd
  platform_failure : CallbackEnd
  failed : Bool → String → String → CallbackEnd

abbrev pub current_row : String → TaskRunRow → StepResult → StepResult
current_row generation r continue =
    if not (is_running r.state) || not (holds r.generation generation)
    then superseded
    else if not (eqb r.cancel_requested 0)
    then cancelled r.cancel_reason
    else continue

-- `_ensure_attempt_current`, and what comes after it.
unfoldable pub ensure_attempt_current : String → String → TaskStore → StepResult → StepResult
ensure_attempt_current run_id generation s continue = elim (get run_id s) [
  | none ↦ superseded
  | some r ↦ current_row generation r continue
]

abbrev pub is_used : String → List String → Bool
is_used name [] = false
is_used name (used ∷ names) = used == name || is_used name names

-- `_enter_step`: what it raises, or `goes_on 0`, and the step with the name in use.
unfoldable pub enter_step : String → TaskStep → TaskStore → StepResult × TaskStep
unfolding ensure_attempt_current
enter_step name t s =
    if not (validate_step_name name)
    then (invalid_name, t)
    else if is_used name t.used_names
    then (duplicate_step, t)
    else (
      ensure_attempt_current t.run_id t.generation s (goes_on 0),
      record t { used_names = name ∷ t.used_names },
    )

-- The store's part of `_refresh_claim`.
unfoldable pub refresh : ℕ → ℕ → ℕ → TaskStep → TaskStore → StepResult × TaskStore
refresh timeout_ms now attempt t s =
    let deadline = now + timeout_ms + claim_slack_ms in
    let (refreshed, s') = refresh_claim t.run_id t.generation deadline now s in
    if not (validate_deadline deadline)
    then (invalid_deadline, s)
    else ((if refreshed then goes_on attempt else superseded), s')

abbrev pub is_later : Option ℕ → ℕ → Bool
is_later none now = false
is_later (some next_at) now = ltb now next_at

-- Python's `text or default`
abbrev pub text_or : Option String → String → String
text_or none default = default
text_or (some text) default = if text == "" then default else text

-- A step that is stored and has not settled starts again, unless its retry is not due yet.
unfoldable pub restart : ℕ → String → TaskStep → TaskStore → StepResult × TaskStore
restart now name t s =
    let (restarted, s') = restart_step t.run_id t.generation name now s in
    elim restarted [ none ↦ (superseded, s') | some row ↦ (goes_on row.attempt, s') ]

unfoldable pub start : ℕ → String → TaskStep → TaskStore → StepResult × TaskStore
start now name t s =
    let (inserted, s') = insert_step t.run_id t.generation name now s in
    if leb max_steps_per_run (count_steps t.run_id s)
    then (too_many_steps, s)
    else if inserted
    then elim (get_step t.run_id name s') [
      | none ↦ (not_recorded, s')
      | some row ↦ (goes_on row.attempt, s')
    ]
    else (superseded, s')

unfoldable pub recorded :
    StepState → TaskStepRow → ℕ → String → TaskStep → TaskStore → StepResult × TaskStore
unfolding restart
recorded StepState.completed row now name t s = (returns row.result, s)
recorded StepState.failed row now name t s = (
  persisted_error (text_or row.error_name "Error") (text_or row.error_message "Task step failed"),
  s,
)
recorded StepState.waiting row now name t s =
    if is_later row.next_at now
    then (suspends (coalesce row.next_at 0) retry, s)
    else restart now name t s
recorded StepState.running row now name t s = restart now name t s

abbrev pub is_do : StepKind → Bool
is_do do_step = true
is_do sleep_step = false

unfoldable pub look_up : ℕ → String → TaskStep → TaskStore → StepResult × TaskStore
unfolding start recorded
look_up now name t s = elim (get_step t.run_id name s) [
  | none ↦ start now name t s
  | some row ↦
      if is_do row.kind then recorded row.state row now name t s else (diverged row.kind, s)
]

abbrev pub on_entry : StepResult → StepResult × TaskStore → TaskStore → StepResult × TaskStore
on_entry (goes_on n) next s = next
on_entry stopped next s = (stopped, s)

abbrev pub is_going_on : StepResult → Bool
is_going_on (goes_on n) = true
is_going_on _ = false

abbrev pub then_refresh : ℕ → ℕ → TaskStep → StepResult × TaskStore → StepResult × TaskStore
then_refresh timeout_ms now t (goes_on attempt, s) = refresh timeout_ms now attempt t s
then_refresh timeout_ms now t (stopped, s) = (stopped, s)

-- `_do` up to its first await; the claim is refreshed by a second look at the clock.
unfoldable pub run_step :
    ResolvedStepPolicy → ℕ → ℕ → String → TaskStep → TaskStore → StepResult × TaskStep × TaskStore
unfolding enter_step look_up refresh
run_step policy now refreshed_at name t s =
    let (entry, t') = enter_step name t s in
    let found = on_entry entry (look_up now name t s) s in
    let (result, s') = then_refresh policy.timeout_ms refreshed_at t found in
    (result, record t' { live = t'.live || is_going_on found.0 }, s')

-- What `_do` checks once its events have been sent, before the callback is invoked.
unfoldable pub resume_step : ℕ → TaskStep → TaskStore → StepResult
unfolding ensure_attempt_current
resume_step attempt t s = ensure_attempt_current t.run_id t.generation s (goes_on attempt)

abbrev pub or_superseded : Bool × TaskStore → StepResult → StepResult × TaskStore
or_superseded (true, s) result = (result, s)
or_superseded (false, s) result = (superseded, s)

-- `_do` after its callback.
unfoldable pub finish_step :
    ResolvedStepPolicy
    → ℕ
    → String
    → ℕ
    → CallbackEnd
    → TaskStep
    → TaskStore
    → StepResult × TaskStore
finish_step policy now name attempt (returned result) t s =
    or_superseded (complete_step t.run_id t.generation name attempt result now s) (returns result)
finish_step policy now name attempt interrupted t s = (reraises, s)
finish_step policy now name attempt (cancelled_by reason) t s = (reraises, s)
finish_step policy now name attempt platform_failure t s = (reraises, s)
finish_step policy now name attempt (failed non_retryable error_name error_message) t s =
    let wake_at = now + retry_delay policy attempt in
    if not non_retryable && ltb attempt policy.retry_limit
    then or_superseded (park_step_retry t.run_id t.generation name attempt wake_at now s)
        (suspends wake_at retry)
    else or_superseded (fail_step t.run_id t.generation name attempt error_name error_message now s)
        reraises
