-- ===== src/Driver/Attempts.antt =====
-- `_drive_job` of the driver: the attempts of a job's handler, its error hook, and what follows for the
-- row. The answers of the handler, of the hook and of the waits are arguments.
use agents_python_cloudflare.Prelude.{
  ℕ, zero, suc, ◌+◌, Bool, true, false, ◌||◌, not, Option, none, some, if◌then◌else◌,
}
use agents_python_cloudflare.Jobs.Rows.{Outcome, finished}

-- What the three tests of an error's chain say; they may all be true of one error.
pub record Failure : Type 0 where
  pub is_code_update_reset : Bool
  pub is_memory_limit_reset : Bool
  pub is_transient : Bool

abbrev pub is_platform_failure : Failure → Bool
is_platform_failure f = f.is_code_update_reset || f.is_memory_limit_reset || f.is_transient

pub data Answer : Type 0 where
  returns : Outcome → Answer
  cancelled : Answer
  fails : Failure → Answer

-- Whether the loop leaves at this answer, whatever the attempt.
abbrev pub is_final : Answer → Bool
is_final (returns outcome) = true
is_final cancelled = true
is_final (fails f) = f.is_code_update_reset

-- The loop from an attempt on, with the number of those after it: the answer it ends with, and the
-- number of the last attempt. `answer` is what each attempt of the handler comes to, and
-- `is_cancelled` whether the wait after it is cancelled.
unfoldable pub attempts_from : (ℕ → Answer) → (ℕ → Bool) → ℕ → ℕ → Answer × ℕ
attempts_from answer is_cancelled zero attempt = (answer attempt, attempt)
attempts_from answer is_cancelled (suc more) attempt =
    let rest = attempts_from answer is_cancelled more (attempt + 1) in
    if is_final (answer attempt)
    then (answer attempt, attempt)
    else if is_cancelled attempt
    then (cancelled, attempt)
    else rest

-- The loop over range(1, max_attempts + 1). The outcome of an empty range is None.
unfoldable pub attempt_job : (ℕ → Answer) → (ℕ → Bool) → ℕ → Answer × ℕ
unfolding attempts_from
attempt_job answer is_cancelled zero = (returns finished, 0)
attempt_job answer is_cancelled (suc more) = attempts_from answer is_cancelled more 1

-- What becomes of the claimed row: an outcome is applied, or an error is raised, before which the
-- running mark is cleared or not.
pub data Driven : Type 0 where
  applies : Outcome → Driven
  raises : Bool → Driven

abbrev pub raises_platform : Failure → Driven
raises_platform f = raises (not f.is_memory_limit_reset)

-- The answer of `on_job_error`, where there is one. A failure of it is reported, and `is_interrupted`
-- is whether that report is cancelled.
abbrev pub on_job_error : Option Answer → Bool → Driven
on_job_error none is_interrupted = applies finished
on_job_error (some (returns outcome)) is_interrupted = applies outcome
on_job_error (some cancelled) is_interrupted = raises true
on_job_error (some (fails f)) is_interrupted =
    if is_platform_failure f
    then raises_platform f
    else if is_interrupted
    then raises true
    else applies finished

unfoldable pub drive_answer : Answer → Option Answer → Bool → Driven
drive_answer (returns outcome) hook is_interrupted = applies outcome
drive_answer cancelled hook is_interrupted = raises true
drive_answer (fails f) hook is_interrupted =
    if is_platform_failure f then raises_platform f else on_job_error hook is_interrupted

abbrev pub invalid_retry : Failure
invalid_retry = record {
  is_code_update_reset = false;
  is_memory_limit_reset = false;
  is_transient = false;
}

-- `_drive_job` for a job that can be read and has a handler. Invalid retry options fail without an
-- attempt.
unfoldable pub drive_job : Bool → ℕ → (ℕ → Answer) → (ℕ → Bool) → Option Answer → Bool → Driven
unfolding attempt_job drive_answer
drive_job is_valid max_attempts answer is_cancelled hook is_interrupted =
    drive_answer
      (if is_valid then (attempt_job answer is_cancelled max_attempts).0 else fails invalid_retry)
      hook is_interrupted
