-- ===== src/Driver/Memory.antt =====
-- The strikes of alarms that exceed the memory limit: `_apply_memory_limit_policy` and its callers. The
-- storage has at most one number, and answers or fails; what the awaits between the statements let in
-- does not matter to these statements, which stand together.
use Prim.Native.Nat.{min}
use agents_python_cloudflare.Prelude.{
  ℕ, ◌+◌, ◌*◌, Bool, true, false, ◌&&◌, Option, none, some, List, [], leb, ltb, eqb, coalesce,
  if◌then◌else◌,
}
use agents_python_cloudflare.Jobs.Rows.{Number, Job, JobRow, Raising, returned, raised, Wire}
use agents_python_cloudflare.Jobs.Codec.{job_from_row}
use agents_python_cloudflare.Jobs.Queue.{Table, recovery_loop_jobs}
use agents_python_cloudflare.Jobs.Execution.{
  delete_intent, retime_intent, delay_recovery_loop_jobs, purge_recovery_loop_jobs,
}
use agents_python_cloudflare.Driver.State.{Driver, version_matches, is_empty}

-- `_record_memory_limit_strike`: the count, and what the storage has then. A strike that cannot be
-- recorded counts as the first.
unfoldable pub record_strike : Bool → Option ℕ → ℕ × Option ℕ
record_strike true prior = (coalesce prior 0 + 1, some (coalesce prior 0 + 1))
record_strike false prior = (1, prior)

abbrev pub strike_delay_ms : ℕ → ℕ
strike_delay_ms strikes = min 300 (30 * strikes) * 1_000

-- Whether the row that was executing is still the one that the driver claimed.
abbrev pub is_expected : Option ℕ → JobRow → Driver → Bool
is_expected none row d = true
is_expected (some version) row d = version_matches row.id version d

abbrev pub current_intent : Option JobRow → Option ℕ → Driver → Option JobRow
current_intent none expected_version d = none
current_intent (some row) expected_version d =
    if is_expected expected_version row d then some row else none

-- The statements of a sealed strike: the row is deleted, and so are the jobs of recovery loops.
unfoldable pub seal : Option JobRow → Bool → Table → Table
seal none require_running t = purge_recovery_loop_jobs t
seal (some row) require_running t = purge_recovery_loop_jobs (delete_intent row require_running t)

-- Those of a strike that is not sealed; an error leaves out the statements after it.
abbrev pub then_delay : ℕ → Raising (Unit {0}) × Table → Table
then_delay next_time (raised e, t) = t
then_delay next_time (returned done, t) = (delay_recovery_loop_jobs (Number.int next_time) t).1

unfoldable pub postpone : Option JobRow → ℕ → Bool → Table → Table
postpone none next_time require_running t = then_delay next_time (returned tt, t)
postpone (some row) next_time require_running t =
    then_delay next_time (retime_intent row (Number.int next_time) require_running t)

-- What the capabilities are told, LifecycleMemoryLimitContext.
pub record MemoryLimitContext (J : Type 0) : Type 0 where
  pub sealed : Bool
  pub next_time : Option ℕ
  pub executing : Option (Job J)
  pub purged_recovery_loop_jobs : List (Job J)

module _ {J : Type 0} (w : Wire J) where
  abbrev pub executing_job : Option JobRow → Raising (Option (Job J))
  executing_job none = returned none
  executing_job (some row) = elim (job_from_row w true row) [
    | returned job ↦ returned (some job)
    | raised e ↦ raised e
  ]

  -- The context, or the error of a row that cannot be read, the stored strikes and the table.
  -- `is_recorded` is whether the strike could be stored, and `is_cleared` whether a sealed one could be
  -- deleted from the storage.
  unfoldable pub apply_memory_limit_policy :
      Bool
      → Bool
      → ℕ
      → ℕ
      → Option JobRow
      → Option ℕ
      → Bool
      → Option ℕ
      → Table
      → Driver
      → Raising (MemoryLimitContext J) × Option ℕ × Table
  unfolding record_strike seal postpone
  apply_memory_limit_policy is_recorded is_cleared limit now executing expected_version
        require_running prior t d =
      let (strikes, stored) = record_strike is_recorded prior in
      let sealed = leb limit strikes in
      let next_time = now + strike_delay_ms strikes in
      let purged = if sealed then recovery_loop_jobs w t else [] in
      let current = current_intent executing expected_version d in
      let t' : Table =
        if sealed
        then seal current require_running t
        else postpone current next_time require_running t in
      elim (executing_job executing) [
        | raised e ↦ (raised e, stored, t')
        | returned job ↦ (
          returned (record {
            sealed = sealed;
            next_time = if sealed then none else some next_time;
            executing = job;
            purged_recovery_loop_jobs = purged;
          }),
          (if sealed && is_cleared then none else stored),
          t',
        )
      ]

-- `_clear_strikes_if_quiescent`: whether an alarm that ended well may clear the strikes. The two
-- generations are those of the driver now and when the alarm began.
abbrev pub is_quiescent : ℕ → ℕ → Driver → Bool
is_quiescent memory_generation expected_generation d =
    eqb d.active_alarms 0 && (is_empty d.tracked && eqb memory_generation expected_generation)

unfoldable pub clear_strikes_if_quiescent : ℕ → ℕ → Bool → Driver → Option ℕ → Option ℕ
clear_strikes_if_quiescent memory_generation expected_generation is_cleared d prior =
    if is_quiescent memory_generation expected_generation d
      && (is_cleared && ltb 0 (coalesce prior 0))
    then none
    else prior
