-- ===== src/Driver/Drive.antt =====
-- One row of `_drive_due_jobs`: what the driver does before its handler runs, and what `_drive_job` does
-- to the row afterwards.
use agents_python_cloudflare.Prelude.{ℕ, String, Bool, ◌&&◌, not, none, some, eqb, if◌then◌else◌}
use agents_python_cloudflare.Jobs.Rows.{JobRow, Outcome, Raising, returned, Wire}
use agents_python_cloudflare.Jobs.Queue.{Table, has_exclusive}
use agents_python_cloudflare.Jobs.Execution.{
  due_row, is_hung, mark_running, clear_intent, apply_outcome,
}
use agents_python_cloudflare.Driver.State.{Driver, start_claim, begin_claim, version_matches}

-- The loop stops, goes on to the next row, or runs the row under the version.
pub data Picked : Type 0 where
  stops skips : Picked
  runs : JobRow → ℕ → Picked

abbrev pub runs_already : JobRow → ℕ → Bool
runs_already row invocation_time =
    eqb row.singleflight 1 && (eqb row.running 1 && not (is_hung row invocation_time))

abbrev pub marked_row : ℕ → JobRow → JobRow
marked_row started_at row = record row { running = 1; execution_started_at = some started_at }

-- The row is marked and claimed.
abbrev pub claim_row : JobRow → ℕ → Table → Driver → Picked × Table × Driver
claim_row row invocation_time t d =
    let (started_at, d') = start_claim invocation_time d in
    let (version, d'') = begin_claim row.id d' in
    (runs (marked_row started_at row) version, mark_running row.id started_at t, d'')

module _ {J : Type 0} (w : Wire J) where
  -- `job_id` is the id of a row that was due when the alarm began.
  unfoldable pub claim_job : Bool → String → ℕ → Table → Driver → Picked × Table × Driver
  claim_job disabled job_id invocation_time t d =
      if disabled
      then (stops, t, d)
      else elim (due_row job_id invocation_time (has_exclusive w t) t) [
        | none ↦ (skips, t, d)
        | some row ↦
            if runs_already row invocation_time
            then (skips, t, d)
            else claim_row row invocation_time t d
      ]

-- The outcome is applied where the job's version is still that of the claim.
unfoldable pub settle_job :
    Bool → JobRow → ℕ → Outcome → Table → Driver → Raising (Unit {0}) × Table
settle_job disabled row version outcome t d =
    if not disabled && version_matches row.id version d
    then apply_outcome row outcome t
    else (returned tt, t)

unfoldable pub clear_running_best_effort : JobRow → ℕ → Table → Driver → Table
clear_running_best_effort row version t d =
    if version_matches row.id version d then clear_intent row t else t
