-- ===== src/Tasks/Superseded.antt =====
-- An attempt whose claim another has taken over can do no harm: nothing that it still does writes.
use agents_python_cloudflare.Prelude.{
  ℕ, ◌+◌, ◌≡◌, refl, ◌≢◌, ◌∙◌, String, false, Option, none, some, inl, inr, arith, eq_iff, holds,
  Bool-cases,
}
use mathlib.Core.Path.{subst}
use agents_python_cloudflare.TaskStore.Rows.{TaskRunRow, TaskStore, is_claimed}
use agents_python_cloudflare.TaskStore.Runs.{claim_run}
use agents_python_cloudflare.TaskStore.Invariant.{IsValid}
use agents_python_cloudflare.TaskStore.View.{exists-get}
use agents_python_cloudflare.TaskStore.Claims.{claimed_get}
use agents_python_cloudflare.Tasks.Policy.{ResolvedStepPolicy, claim_slack_ms, validate_deadline}
use agents_python_cloudflare.Tasks.Step
use agents_python_cloudflare.Tasks.Step.{
  TaskStep, StepResult, CallbackEnd, returned, interrupted, cancelled_by, platform_failure, failed,
  ensure_attempt_current, enter_step, is_used, run_step, resume_step, finish_step, goes_on,
  on_entry, then_refresh, or_superseded, look_up,
}
use agents_python_cloudflare.Tasks.Sleeping
use agents_python_cloudflare.Tasks.Sleeping.{
  sleep_at, status, look_up_sleep, update_status_once, on_status_entry,
}
use agents_python_cloudflare.Tasks.Attempt
use agents_python_cloudflare.Tasks.Attempt.{
  Settled, leaves, AttemptEnd, finish_attempt, settle_requested_cancellation, settle_failure,
  cancel_claim, settled, or_requested_cancellation, claims, Claimed, claiming, failing,
  claim_attempt, fail_before_claim,
}
use agents_python_cloudflare.Tasks.Lost.{
  IsLost, run_step_lost, finish_step_lost, finish_step_told, sleep_at_lost, status_lost,
  finish_attempt_lost,
}

-- What every call of an attempt leaves as it is.
pub record WritesNothing (t : TaskStep) (s : TaskStore) : Type 0 where
  run_step :
      (policy : ResolvedStepPolicy) (now refreshed_at : ℕ) (name : String)
      → (Step.run_step policy now refreshed_at name t s).2 ≡ s
  finish_step :
      (policy : ResolvedStepPolicy) (now : ℕ) (name : String) (attempt : ℕ) (end : CallbackEnd)
      → (Step.finish_step policy now name attempt end t s).1 ≡ s
  refused :
      (policy : ResolvedStepPolicy) (now : ℕ) (name : String) (attempt : ℕ) (result : Option String)
      → (Step.finish_step policy now name attempt (returned result) t s).0 ≡ StepResult.superseded
  sleep_at : (wake_at now : ℕ) (name : String) → (Sleeping.sleep_at wake_at now name t s).2 ≡ s
  status : (message : String) (now : ℕ) → (Sleeping.status message now t s).2 ≡ s
  finish_attempt :
      (end : AttemptEnd) (now : ℕ)
      → Attempt.finish_attempt t.run_id t.generation end now s ≡ (leaves, s)

-- A claim that has been granted, as the store's claim_run.
pub claimed_run :
    (r0 : TaskRunRow) (g : String) (timeout_ms : ℕ) (name message : String) (now later : ℕ)
    (s : TaskStore) (r : TaskRunRow)
    → (claim_attempt r0 g timeout_ms name message now later s).0 ≡ claims r
    → let d = now + (timeout_ms + claim_slack_ms) in
      ((claim_run r0.run_id g now d s).0 ≡ some r)
      × ((claim_attempt r0 g timeout_ms name message now later s).1
          ≡ (claim_run r0.run_id g now d s).1)
unfolding claim_attempt
claimed_run r0 g timeout_ms name message now later s r won =
    elim (Bool-cases (validate_deadline (now + (timeout_ms + claim_slack_ms)))) [
      | inl valid ↦
          rw (valid, claim_attempt)
            (go (claim_run r0.run_id g now (now + (timeout_ms + claim_slack_ms)) s)
              (rw (valid, claim_attempt) at won))
      | inr invalid ↦
          absurd
            (fails (fail_before_claim r0 name message later s) (rw (invalid, claim_attempt) at won))
    ]
  where
    go :
        (x : Option TaskRunRow × TaskStore)
        → (claiming x).0 ≡ claims r
        → (x.0 ≡ some r) × ((claiming x).1 ≡ x.1)
    go (none, s') e = absurd (cc)
    go (some r', s') e = (cc, refl)

    fails : (x : Settled × TaskStore) → (failing x).0 ≡ claims r → ⊥
    fails x e = cc

IsLost-claimed :
    (k g g' : String) (now d : ℕ) (s : TaskStore) (r : TaskRunRow)
    → IsValid s
    → (claim_run k g' now d s).0 ≡ some r
    → g ≢ g'
    → IsLost k g (claim_run k g' now d s).1
IsLost-claimed k g g' now d s r valid won ne =
    let (stored, valid', held, _, _, _) = claimed_get k g' now d s r valid won in
    let differs : holds r.generation g ≡ false = rw held (ground (arith, eq_iff g' g)) in
    record {
      other = λ x e. let same : x ≡ r = cc in rw same differs;
      unclaimed =
          exists-get k (claim_run k g' now d s).1 valid' (is_claimed k g) (λ x h. ground arith)
          ∙ rw stored (ground arith);
    }

-- Once an attempt has claimed a run on valid tables, an attempt of the same run under another
-- generation writes nothing any more: not at the start of a step, at the end of a callback, in a
-- sleep, in a status message or at the end of its definition. A result of its callback is refused as
-- superseded, and the end of its definition settles nothing.
pub claim_attempt-supersedes :
    (r0 r : TaskRunRow) (g' : String) (timeout_ms : ℕ) (error_name error_message : String)
    (now later : ℕ) (s : TaskStore) (t : TaskStep)
    → IsValid s
    → (claim_attempt r0 g' timeout_ms error_name error_message now later s).0 ≡ claims r
    → r0.run_id ≡ t.run_id
    → t.generation ≢ g'
    → WritesNothing t (claim_attempt r0 g' timeout_ms error_name error_message now later s).1
claim_attempt-supersedes r0 r g' timeout_ms error_name error_message now later s t valid won same
      ne =
    let (granted, after) =
      claimed_run r0 g' timeout_ms error_name error_message now later s r won in
    rw after (writes_nothing granted)
  where
    d : ℕ
    d = now + (timeout_ms + claim_slack_ms)

    writes_nothing :
        (claim_run r0.run_id g' now d s).0 ≡ some r
        → WritesNothing t (claim_run r0.run_id g' now d s).1
    writes_nothing granted =
        let lost : IsLost t.run_id t.generation (claim_run r0.run_id g' now d s).1 =
          subst (λ k. IsLost k t.generation (claim_run r0.run_id g' now d s).1) same
            (IsLost-claimed r0.run_id t.generation g' now d s r valid granted ne) in
        record {
          run_step = run_step_lost t _ lost;
          finish_step = finish_step_lost t _ lost;
          refused = finish_step_told t _ lost;
          sleep_at = sleep_at_lost t _ lost;
          status = status_lost t _ lost;
          finish_attempt = finish_attempt_lost t _ lost;
        }
