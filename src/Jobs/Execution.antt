-- ===== src/Jobs/Execution.antt =====
-- The statements of `_LifecycleJobQueue` in agents/lifecycle/jobs.py that the job driver makes: what
-- is due, what runs, and what becomes of a row once it has run.
use agents_python_cloudflare.Prelude.{
  ℕ, ◌+◌, ◌*◌, String, Bool, true, false, ◌&&◌, ◌||◌, not, Option, none, some, List, ◌==◌, leb, eqb,
  coalesce,
}
use agents_python_cloudflare.Sql.{update, delete, select, first, order_by}
use agents_python_cloudflare.Jobs.Rows.{
  Number, JobRow, Outcome, finished, yield, reschedule_at, invalid, invalid_time, invalid_outcome,
  Raising, returned, raised,
}
use agents_python_cloudflare.Jobs.Validation.{validate_time}
use agents_python_cloudflare.Jobs.Queue.{Table, by_time, retimed}

-- WHERE time <= ?, with `AND exclusive = 1` where asked
abbrev pub is_due : ℕ → Bool → JobRow → Bool
is_due time exclusive_only r = leb r.time time && (not exclusive_only || eqb r.exclusive 1)

unfoldable pub due : ℕ → Bool → Table → List JobRow
due time exclusive_only t = order_by by_time (select (is_due time exclusive_only) t)

unfoldable pub due_row : String → ℕ → Bool → Table → Option JobRow
due_row job_id time exclusive_only t = first (λ r. r.id == job_id && is_due time exclusive_only r) t

unfoldable pub mark_running : String → ℕ → Table → Table
mark_running job_id time =
    update (λ r. r.id == job_id) (λ r. record r { running = 1; execution_started_at = some time })

abbrev pub default_hung_timeout_seconds : ℕ
default_hung_timeout_seconds = 30

abbrev pub hung_timeout_ms : JobRow → ℕ
hung_timeout_ms r = coalesce r.hung_timeout_seconds default_hung_timeout_seconds * 1000

-- time - started >= timeout, on integers
unfoldable pub is_hung : JobRow → ℕ → Bool
is_hung r time = leb (coalesce r.execution_started_at 0 + hung_timeout_ms r) time

abbrev pub idle : JobRow → JobRow
idle r = record r { running = 0; execution_started_at = none }

unfoldable pub clear_running : String → Table → Table
clear_running job_id = update (λ r. r.id == job_id && eqb r.running 1) idle

-- SQL's `IS`, which holds of two NULLs.
abbrev pub is_text : Option String → Option String → Bool
is_text none none = true
is_text (some a) (some b) = a == b
is_text _ _ = false

abbrev pub is_number : Option ℕ → Option ℕ → Bool
is_number none none = true
is_number (some a) (some b) = eqb a b
is_number _ _ = false

-- The intent columns of a row are those of the row that the driver read.
abbrev pub same_intent : JobRow → JobRow → Bool
same_intent row r =
    r.id == row.id
    && (r.capability == row.capability
        && (r.fn == row.fn
            && (eqb r.time row.time
                && (is_text r.payload row.payload
                    && (is_text r.retry_options row.retry_options
                        && (eqb r.singleflight row.singleflight
                            && (is_number r.hung_timeout_seconds row.hung_timeout_seconds
                                && (eqb r.exclusive row.exclusive
                                    && eqb r.recovery_loop row.recovery_loop))))))))

unfoldable pub intent_guard : JobRow → Bool → JobRow → Bool
intent_guard row require_running r =
    same_intent row r
    && (not require_running
        || (is_number r.execution_started_at row.execution_started_at && eqb r.running 1))

unfoldable pub clear_intent : JobRow → Table → Table
unfolding intent_guard
clear_intent row = update (intent_guard row true) idle

unfoldable pub remove : String → Table → Table
remove job_id = delete (λ r. r.id == job_id)

unfoldable pub delete_intent : JobRow → Bool → Table → Table
unfolding intent_guard
delete_intent row require_running = delete (intent_guard row require_running)

unfoldable pub retime_intent : JobRow → Number → Bool → Table → Raising (Unit {0}) × Table
unfolding intent_guard
retime_intent row time require_running t = elim (validate_time time) [
  | none ↦ (raised invalid_time, t)
  | some due ↦ (returned tt, update (intent_guard row require_running) (retimed due) t)
]

unfoldable pub delay_recovery_loop_jobs : Number → Table → Raising (Unit {0}) × Table
delay_recovery_loop_jobs time t = elim (validate_time time) [
  | none ↦ (raised invalid_time, t)
  | some due ↦ (returned tt, update (λ r. eqb r.recovery_loop 1 && leb r.time due) (retimed due) t)
]

unfoldable pub purge_recovery_loop_jobs : Table → Table
purge_recovery_loop_jobs = delete (λ r. eqb r.recovery_loop 1)

unfoldable pub apply_outcome : JobRow → Outcome → Table → Raising (Unit {0}) × Table
unfolding intent_guard clear_intent
apply_outcome row finished t = (returned tt, delete (intent_guard row true) t)
apply_outcome row yield t = (returned tt, clear_intent row t)
apply_outcome row (reschedule_at time) t = elim (validate_time time) [
  | none ↦ (raised invalid_time, t)
  | some due ↦ (returned tt, update (intent_guard row true) (retimed due) t)
]
apply_outcome row invalid t = (raised invalid_outcome, t)
