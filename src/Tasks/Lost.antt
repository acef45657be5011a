-- ===== src/Tasks/Lost.antt =====
-- What the calls of an attempt leave as it is once another attempt has taken its claim over.
use agents_python_cloudflare.Prelude.{
  ℕ, ◌+◌, ◌≡◌, refl, ◌≢◌, ◌∙◌, ap, String, Bool, false, ◌&&◌, not, Option, none, some, inl, inr,
  arith, ltb, holds, Bool-cases,
}
use agents_python_cloudflare.Sql.{exists}
use agents_python_cloudflare.TaskStore.Rows.{retry, TaskRunRow, TaskStore, is_claimed, is_fenced}
use agents_python_cloudflare.TaskStore.Runs.{
  get, settle_completed, settle_failed, settle_cancelled_claim,
}
use agents_python_cloudflare.TaskStore.Steps.{complete_step, fail_step}
use agents_python_cloudflare.TaskStore.Parking.{park_step_retry}
use agents_python_cloudflare.TaskStore.View.{update_runs_refused}
use agents_python_cloudflare.TaskStore.Fencing.{update_steps_refused, fenced_claimed}
use agents_python_cloudflare.TaskStore.Parked.{park_step_retry_lem}
use agents_python_cloudflare.Tasks.Policy.{ResolvedStepPolicy, retry_delay, validate_step_name}
use agents_python_cloudflare.Tasks.Step.{
  TaskStep, StepResult, CallbackEnd, returned, interrupted, cancelled_by, platform_failure, failed,
  ensure_attempt_current, enter_step, is_used, run_step, finish_step, goes_on, on_entry,
  then_refresh, or_superseded, look_up,
}
use agents_python_cloudflare.Tasks.Sleeping.{sleep_at, status, look_up_sleep}
use agents_python_cloudflare.Tasks.Attempt.{
  leaves, AttemptEnd, finish_attempt, settle_requested_cancellation, settle_failure, cancel_claim,
  settled, or_requested_cancellation,
}

-- The claim of a generation on a run is lost: the stored run, if there is one, has another.
pub record IsLost (k g : String) (s : TaskStore) : Type 0 where
  pub other : (r : TaskRunRow) → get k s ≡ some r → holds r.generation g ≡ false
  pub unclaimed : exists (is_claimed k g) s.runs ≡ false

on_entry_lost :
    {s : TaskStore} (entry : StepResult) (next : StepResult × TaskStore)
    → ((m : ℕ) → entry ≢ goes_on m)
    → (on_entry entry next s).1 ≡ s
on_entry_lost (goes_on m) next h = absurd (h m refl)
on_entry_lost _ next h = refl

module _ (t : TaskStep) (s : TaskStore) (lost : IsLost t.run_id t.generation s) where
  ensure_lost :
      (next : StepResult)
      → ensure_attempt_current t.run_id t.generation s next ≡ StepResult.superseded
  unfolding ensure_attempt_current
  ensure_lost next = go (get t.run_id s) refl
    where
      go :
          (o : Option TaskRunRow)
          → get t.run_id s ≡ o
          → ensure_attempt_current t.run_id t.generation s next ≡ StepResult.superseded
      go none e = rw (e, ensure_attempt_current) refl
      go (some r) e =
          let h : holds r.generation t.generation ≡ false = lost.other r e in
          rw (e, ensure_attempt_current) (ground arith)

  enter_lost : (name : String) (m : ℕ) → (enter_step name t s).0 ≢ goes_on m
  unfolding enter_step
  enter_lost name m = elim (Bool-cases (validate_step_name name)) [
    | inl valid ↦ elim (Bool-cases (is_used name t.used_names)) [
      | inl used ↦ rw (valid, used) (λ h. cc h)
      | inr free ↦ rw (valid, free, ensure_lost (goes_on 0)) (λ h. cc h)
    ]
    | inr invalid ↦ rw invalid (λ h. cc h)
  ]

  pub run_step_lost :
      (policy : ResolvedStepPolicy) (now refreshed_at : ℕ) (name : String)
      → (run_step policy now refreshed_at name t s).2 ≡ s
  unfolding run_step
  run_step_lost policy now refreshed_at name = go (enter_step name t s).0 (enter_lost name)
    where
      go :
          (entry : StepResult)
          → ((m : ℕ) → entry ≢ goes_on m)
          → (then_refresh policy.timeout_ms refreshed_at t
              (on_entry entry (look_up now name t s) s)).1
            ≡ s
      go (goes_on m) h = absurd (h m refl)
      go StepResult.superseded h = refl
      go (StepResult.cancelled reason) h = refl
      go (StepResult.returns result) h = refl
      go (StepResult.persisted_error name message) h = refl
      go StepResult.reraises h = refl
      go (StepResult.suspends at reason) h = refl
      go StepResult.invalid_name h = refl
      go StepResult.duplicate_step h = refl
      go StepResult.too_many_steps h = refl
      go StepResult.not_recorded h = refl
      go StepResult.invalid_deadline h = refl
      go (StepResult.diverged kind) h = refl

  pub sleep_at_lost : (wake_at now : ℕ) (name : String) → (sleep_at wake_at now name t s).2 ≡ s
  unfolding sleep_at
  sleep_at_lost wake_at now name =
      on_entry_lost (enter_step name t s).0 (look_up_sleep wake_at now name t s) (enter_lost name)

  pub status_lost : (message : String) (now : ℕ) → (status message now t s).2 ≡ s
  unfolding status
  status_lost message now = rw (ensure_lost (goes_on 0), status) refl

  down : exists (is_fenced t.run_id t.generation) s.runs ≡ false
  down = fenced_claimed t.run_id t.generation s lost.unclaimed

  park_refused :
      (name : String) (attempt w now : ℕ)
      → park_step_retry t.run_id t.generation name attempt w now s ≡ (false, s)
  park_refused name attempt w now =
      park_step_retry_lem t.run_id t.generation name w now s attempt ∙ rw down refl

  pub finish_step_lost :
      (policy : ResolvedStepPolicy) (now : ℕ) (name : String) (attempt : ℕ) (end : CallbackEnd)
      → (finish_step policy now name attempt end t s).1 ≡ s
  unfolding finish_step complete_step fail_step
  finish_step_lost policy now name attempt (returned result) =
      ap (λ (x : Bool × TaskStore). (or_superseded x (StepResult.returns result)).1)
        (update_steps_refused t.run_id t.generation _ _ s down)
  finish_step_lost policy now name attempt interrupted = refl
  finish_step_lost policy now name attempt (cancelled_by reason) = refl
  finish_step_lost policy now name attempt platform_failure = refl
  finish_step_lost policy now name attempt (failed non_retryable error_name error_message) =
      elim (Bool-cases (not non_retryable && ltb attempt policy.retry_limit)) [
        | inl retried ↦ rw retried (
            ap
              (λ (x : Bool × TaskStore).
                (or_superseded x (StepResult.suspends (now + retry_delay policy attempt) retry)).1)
              (park_refused name attempt (now + retry_delay policy attempt) now))
        | inr fails ↦ rw fails (
            ap (λ (x : Bool × TaskStore). (or_superseded x StepResult.reraises).1)
              (update_steps_refused t.run_id t.generation _ _ s down))
      ]

  requested_lost :
      (now : ℕ) → settle_requested_cancellation t.run_id t.generation now s ≡ (leaves, s)
  unfolding settle_requested_cancellation
  requested_lost now = go (get t.run_id s) refl
    where
      go :
          (o : Option TaskRunRow)
          → get t.run_id s ≡ o
          → settle_requested_cancellation t.run_id t.generation now s ≡ (leaves, s)
      go none e = rw (e, settle_requested_cancellation) refl
      go (some r) e = rw (e, settle_requested_cancellation) (rw (lost.other r e) refl)

  pub finish_attempt_lost :
      (end : AttemptEnd) (now : ℕ) → finish_attempt t.run_id t.generation end now s ≡ (leaves, s)
  unfolding finish_attempt settle_failure cancel_claim settle_completed settle_failed
      settle_cancelled_claim
  finish_attempt_lost AttemptEnd.suspended now = refl
  finish_attempt_lost AttemptEnd.superseded now = requested_lost now
  finish_attempt_lost AttemptEnd.interrupted now = refl
  finish_attempt_lost AttemptEnd.platform_failure now = refl
  finish_attempt_lost (AttemptEnd.cancelled reason) now =
      ap settled (update_runs_refused (is_claimed t.run_id t.generation) _ s lost.unclaimed)
  finish_attempt_lost (AttemptEnd.failed error_name error_message) now =
      ap (or_requested_cancellation t.run_id t.generation now)
        (update_runs_refused (is_fenced t.run_id t.generation) _ s down)
      ∙ requested_lost now
  finish_attempt_lost (AttemptEnd.returned result) now =
      ap (or_requested_cancellation t.run_id t.generation now)
        (update_runs_refused (is_fenced t.run_id t.generation) _ s down)
      ∙ requested_lost now

  pub finish_step_told :
      (policy : ResolvedStepPolicy) (now : ℕ) (name : String) (attempt : ℕ) (result : Option String)
      → (finish_step policy now name attempt (returned result) t s).0 ≡ StepResult.superseded
  unfolding finish_step complete_step
  finish_step_told policy now name attempt result =
      ap (λ (x : Bool × TaskStore). (or_superseded x (StepResult.returns result)).0)
        (update_steps_refused t.run_id t.generation _ _ s down)
