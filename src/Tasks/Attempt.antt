-- ===== src/Tasks/Attempt.antt =====
-- An attempt of a run: `_execute_run` of agents/tasks.py and the methods that settle a run.
-- `examine_run` is its part before its first await, `claim_attempt` the part around the claim, and
-- `finish_attempt` what it does with the end of the task's definition.
use agents_python_cloudflare.Prelude.{
  ℕ, ◌+◌, String, Bool, true, false, ◌||◌, not, Option, none, some, eqb, holds, if◌then◌else◌,
}
use agents_python_cloudflare.TaskStore.Rows.{
  TaskRunRow, TaskStepRow, TaskStore, is_terminal, is_running,
}
use agents_python_cloudflare.TaskStore.Runs.{
  get, claim_run, settle_completed, settle_failed, settle_failed_unclaimed, settle_cancelled_claim,
  cancel_parked,
}
use agents_python_cloudflare.TaskStore.Steps.{newest_running_step}
use agents_python_cloudflare.TaskStore.Removal.{delete_unretained_terminal}
use agents_python_cloudflare.Tasks.Policy.{claim_slack_ms, validate_deadline}
use agents_python_cloudflare.Tasks.Step.{is_later}

-- What a settling method goes on to: an event, after which `forget` is called; or nothing.
pub data Settled : Type 0 where
  announces : Settled
  leaves : Settled

abbrev pub settled : Bool × TaskStore → Settled × TaskStore
settled (true, s) = (announces, s)
settled (false, s) = (leaves, s)

-- The store's part of what follows the event: an unretained run is deleted.
unfoldable pub forget : String → TaskStore → TaskStore
forget run_id s = (delete_unretained_terminal run_id s).1

unfoldable pub cancel_claim : String → String → Option String → ℕ → TaskStore → Settled × TaskStore
cancel_claim run_id generation reason now s =
    settled (settle_cancelled_claim run_id generation reason now s)

unfoldable pub cancel_unclaimed : String → Option String → ℕ → TaskStore → Settled × TaskStore
cancel_unclaimed run_id reason now s = settled (cancel_parked run_id reason now s)

-- `_settle_requested_cancellation`
unfoldable pub settle_requested_cancellation : String → String → ℕ → TaskStore → Settled × TaskStore
unfolding cancel_claim
settle_requested_cancellation run_id generation now s = elim (get run_id s) [
  | none ↦ (leaves, s)
  | some current ↦
      if not (holds current.generation generation) || eqb current.cancel_requested 0
      then (leaves, s)
      else cancel_claim run_id generation current.cancel_reason now s
]

-- A fenced settlement, and the cancellation that is looked for where the fence refuses it.
abbrev pub or_requested_cancellation : String → String → ℕ → Bool × TaskStore → Settled × TaskStore
or_requested_cancellation run_id generation now (true, s) = (announces, s)
or_requested_cancellation run_id generation now (false, s) =
    settle_requested_cancellation run_id generation now s

unfoldable pub settle_failure :
    String → String → String → String → ℕ → TaskStore → Settled × TaskStore
settle_failure run_id generation error_name error_message now s =
    or_requested_cancellation run_id generation now
      (settle_failed run_id generation error_name error_message now s)

unfoldable pub settle_unclaimed_failure :
    String → String → String → ℕ → TaskStore → Settled × TaskStore
settle_unclaimed_failure run_id error_name error_message now s =
    settled (settle_failed_unclaimed run_id error_name error_message now s)

-- A failure before the claim: of the claim that the row still has, or of an unclaimed run.
abbrev pub fail_before_claim : TaskRunRow → String → String → ℕ → TaskStore → Settled × TaskStore
fail_before_claim r error_name error_message now s = elim r.generation [
  | none ↦ settle_unclaimed_failure r.run_id error_name error_message now s
  | some generation ↦ settle_failure r.run_id generation error_name error_message now s
]

abbrev pub cancel_before_claim : TaskRunRow → ℕ → TaskStore → Settled × TaskStore
cancel_before_claim r now s = elim r.generation [
  | none ↦ cancel_unclaimed r.run_id r.cancel_reason now s
  | some generation ↦ cancel_claim r.run_id generation r.cancel_reason now s
]

-- What a look at the run comes to: nothing to do yet, a settlement, or an attempt, which may take
-- over from one that was interrupted at a step.
pub data Examined : Type 0 where
  nothing : Examined
  settles : Settled → Examined
  attempts : TaskRunRow → Option TaskStepRow → Examined

abbrev pub settling : Settled × TaskStore → Examined × TaskStore
settling (result, s) = (settles result, s)

-- `is_defined` is whether the definition of the row's name is known; the two texts are the summary
-- of the MissingTaskDefinitionError. `now` is the time of the look, `settled_at` that of a settlement.
unfoldable pub examine_run :
    String → (String → Bool) → String → String → ℕ → ℕ → TaskStore → Examined × TaskStore
examine_run run_id is_defined error_name error_message now settled_at s = elim (get run_id s) [
  | none ↦ (nothing, s)
  | some r ↦
      if is_terminal r.state
      then (nothing, s)
      else if not (eqb r.cancel_requested 0)
      then settling (cancel_before_claim r settled_at s)
      else if is_later r.next_at now
      then (nothing, s)
      else if not (is_defined r.definition)
      then settling (fail_before_claim r error_name error_message settled_at s)
      else (attempts r (if is_running r.state then newest_running_step run_id s else none), s)
]

-- The claim; `now` is the time of the look, and `timeout_ms` that of the default policy. A deadline
-- that is no SQLite integer fails the run.
pub data Claimed : Type 0 where
  claims : TaskRunRow → Claimed
  misses : Claimed
  fails : Settled → Claimed

abbrev pub failing : Settled × TaskStore → Claimed × TaskStore
failing (result, s) = (fails result, s)

abbrev pub claiming : Option TaskRunRow × TaskStore → Claimed × TaskStore
claiming (none, s) = (misses, s)
claiming (some r, s) = (claims r, s)

unfoldable pub claim_attempt :
    TaskRunRow → String → ℕ → String → String → ℕ → ℕ → TaskStore → Claimed × TaskStore
claim_attempt r generation timeout_ms error_name error_message now settled_at s =
    let deadline = now + (timeout_ms + claim_slack_ms) in
    if validate_deadline deadline
    then claiming (claim_run r.run_id generation now deadline s)
    else failing (fail_before_claim r error_name error_message settled_at s)

-- How the definition of a task ended. A result is its text; `failed` has the error's summary.
pub data AttemptEnd : Type 0 where
  suspended superseded interrupted platform_failure : AttemptEnd
  cancelled : Option String → AttemptEnd
  failed : String → String → AttemptEnd
  returned : Option String → AttemptEnd

unfoldable pub finish_attempt : String → String → AttemptEnd → ℕ → TaskStore → Settled × TaskStore
finish_attempt run_id generation suspended now s = (leaves, s)
finish_attempt run_id generation superseded now s =
    settle_requested_cancellation run_id generation now s
finish_attempt run_id generation interrupted now s = (leaves, s)
finish_attempt run_id generation platform_failure now s = (leaves, s)
finish_attempt run_id generation (cancelled reason) now s =
    cancel_claim run_id generation reason now s
finish_attempt run_id generation (failed error_name error_message) now s =
    settle_failure run_id generation error_name error_message now s
finish_attempt run_id generation (returned result) now s =
    or_requested_cancellation run_id generation now
      (settle_completed run_id generation result now s)
