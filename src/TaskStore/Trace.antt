-- ===== src/TaskStore/Trace.antt =====
-- Every statement of the task store that changes state, as one type of operations, and the stores
-- that sequences of them reach. `SetRuns` and `SetSteps` are what the statements on runs and on
-- steps have in common.
use agents_python_cloudflare.Prelude.{ℕ, String, Bool, Option, none, some, List, [], ◌∷◌}
use agents_python_cloudflare.TaskStore.Rows.{RunState, TaskStore}
use agents_python_cloudflare.TaskStore.Runs
use agents_python_cloudflare.TaskStore.Steps
use agents_python_cloudflare.TaskStore.Parking
use agents_python_cloudflare.TaskStore.Removal

pub data Op : Type 0 where
  insert_pending : String → String → Option String → Option String → Option String → Bool → ℕ → Op
  reconcile_deadlines : ℕ → Op
  claim_run : String → String → ℕ → ℕ → Op
  refresh_claim extend_active_claim : String → String → ℕ → ℕ → Op
  update_status : String → String → String → ℕ → Op
  settle_completed : String → String → Option String → ℕ → Op
  settle_failed : String → String → String → String → ℕ → Op
  request_cancel settle_cancelled_claim : String → String → Option String → ℕ → Op
  backoff_memory_claim : String → String → ℕ → ℕ → Op
  settle_failed_unclaimed : String → String → String → ℕ → Op
  cancel_parked : String → Option String → ℕ → Op
  insert_step insert_completed_sleep complete_sleep restart_step : String → String → String → ℕ → Op
  complete_step : String → String → String → ℕ → Option String → ℕ → Op
  fail_step : String → String → String → ℕ → String → String → ℕ → Op
  park_new_sleep : String → String → String → ℕ → ℕ → Op
  park_existing_sleep : String → String → ℕ → ℕ → Op
  park_step_retry : String → String → String → ℕ → ℕ → ℕ → Op
  delete_unretained_terminal delete_unaccepted : String → Op
  delete_terminal : List RunState → Option ℕ → ℕ → Op

-- An insertion that SQLite refuses leaves the tables as they are.
abbrev pub or_same : TaskStore → Option TaskStore → TaskStore
or_same s none = s
or_same s (some s') = s'

-- The store after an operation, whatever it returns.
unfoldable pub apply : Op → TaskStore → TaskStore
apply (insert_pending k d i m key retain t) s =
    or_same s (Runs.insert_pending k d i m key retain t s)
apply (reconcile_deadlines t) s = Runs.reconcile_deadlines t s
apply (claim_run k g t d) s = (Runs.claim_run k g t d s).1
apply (refresh_claim k g n t) s = (Runs.refresh_claim k g n t s).1
apply (extend_active_claim k g n t) s = (Runs.extend_active_claim k g n t s).1
apply (update_status k g m t) s = (Runs.update_status k g m t s).1
apply (settle_completed k g r t) s = (Runs.settle_completed k g r t s).1
apply (settle_failed k g e m t) s = (Runs.settle_failed k g e m t s).1
apply (request_cancel k g r t) s = (Runs.request_cancel k g r t s).1
apply (settle_cancelled_claim k g r t) s = (Runs.settle_cancelled_claim k g r t s).1
apply (backoff_memory_claim k g n t) s = (Runs.backoff_memory_claim k g n t s).1
apply (settle_failed_unclaimed k e m t) s = (Runs.settle_failed_unclaimed k e m t s).1
apply (cancel_parked k r t) s = (Runs.cancel_parked k r t s).1
apply (insert_step k g n t) s = (Steps.insert_step k g n t s).1
apply (insert_completed_sleep k g n t) s = (Steps.insert_completed_sleep k g n t s).1
apply (complete_sleep k g n t) s = (Steps.complete_sleep k g n t s).1
apply (restart_step k g n t) s = (Steps.restart_step k g n t s).1
apply (complete_step k g n a r t) s = (Steps.complete_step k g n a r t s).1
apply (fail_step k g n a e m t) s = (Steps.fail_step k g n a e m t s).1
apply (park_new_sleep k g n w t) s = (Parking.park_new_sleep k g n w t s).1
apply (park_existing_sleep k g w t) s = (Parking.park_existing_sleep k g w t s).1
apply (park_step_retry k g n a w t) s = (Parking.park_step_retry k g n a w t s).1
apply (delete_unretained_terminal k) s = (Removal.delete_unretained_terminal k s).1
apply (delete_unaccepted k) s = (Removal.delete_unaccepted k s).1
apply (delete_terminal states before limit) s = (Removal.delete_terminal states before limit s).1

unfoldable pub run : List Op → TaskStore → TaskStore
unfolding apply
run [] s = s
run (op ∷ ops) s = run ops (apply op s)

abbrev pub empty : TaskStore
empty = record { runs = []; steps = [] }
