-- ===== src/TaskStore/Effect/Apply.antt =====
-- Every operation of the task store has an effect.
use agents_python_cloudflare.Prelude.{List, [], ◌∷◌}
use agents_python_cloudflare.TaskStore.Rows.{TaskStore}
use agents_python_cloudflare.TaskStore.Trace.{Op, apply, run}
use agents_python_cloudflare.TaskStore.Effect.Relation.{Effect, same, seq, Change, effect, next}
use agents_python_cloudflare.TaskStore.Effect.Runs
use agents_python_cloudflare.TaskStore.Effect.Steps
use agents_python_cloudflare.TaskStore.Effect.Removal

-- The operations that delete no run.
abbrev pub IsKeeping : Op → Type 0
IsKeeping (Op.delete_unretained_terminal k) = ⊥
IsKeeping (Op.delete_unaccepted k) = ⊥
IsKeeping (Op.delete_terminal states before limit) = ⊥
IsKeeping _ = Unit

abbrev pub AllKeeping : List Op → Type 0
AllKeeping [] = Unit
AllKeeping (op ∷ ops) = IsKeeping op × AllKeeping ops

pub apply-Effect : (op : Op) (s : TaskStore) → IsKeeping op → Effect s (apply op s)
unfolding apply
apply-Effect (Op.claim_run k g t d) s h = Runs.claim_run-Effect s k g t d
apply-Effect (Op.refresh_claim k g n t) s h = Runs.refresh_claim-Effect s k g n t
apply-Effect (Op.extend_active_claim k g n t) s h = Runs.extend_active_claim-Effect s k g n t
apply-Effect (Op.update_status k g m t) s h = Runs.update_status-Effect s k g m t
apply-Effect (Op.settle_completed k g r t) s h = Runs.settle_completed-Effect s k g r t
apply-Effect (Op.settle_failed k g e m t) s h = Runs.settle_failed-Effect s k g e m t
apply-Effect (Op.request_cancel k g r t) s h = Runs.request_cancel-Effect s k g r t
apply-Effect (Op.settle_cancelled_claim k g r t) s h = Runs.settle_cancelled_claim-Effect s k g r t
apply-Effect (Op.backoff_memory_claim k g n t) s h = Runs.backoff_memory_claim-Effect s k g n t
apply-Effect (Op.settle_failed_unclaimed k e m t) s h =
    Runs.settle_failed_unclaimed-Effect s k e m t
apply-Effect (Op.cancel_parked k r t) s h = Runs.cancel_parked-Effect s k r t
apply-Effect (Op.reconcile_deadlines t) s h = Runs.reconcile_deadlines-Effect s t
apply-Effect (Op.insert_pending k d i m key retain t) s h =
    Runs.insert_pending-Effect s k d i m key retain t
apply-Effect (Op.insert_step k g n t) s h = Steps.insert_step-Effect s k g n t
apply-Effect (Op.insert_completed_sleep k g n t) s h = Steps.insert_completed_sleep-Effect s k g n t
apply-Effect (Op.complete_sleep k g n t) s h = Steps.complete_sleep-Effect s k g n t
apply-Effect (Op.restart_step k g n t) s h = Steps.restart_step-Effect s k g n t
apply-Effect (Op.complete_step k g n a r t) s h = Steps.complete_step-Effect s k g n a r t
apply-Effect (Op.fail_step k g n a e m t) s h = Steps.fail_step-Effect s k g n a e m t
apply-Effect (Op.park_new_sleep k g n w t) s h = Steps.park_new_sleep-Effect s k g n w t
apply-Effect (Op.park_existing_sleep k g w t) s h = Steps.park_existing_sleep-Effect s k g w t
apply-Effect (Op.park_step_retry k g n a w t) s h = Steps.park_step_retry-Effect s k g n a w t
apply-Effect (Op.delete_unretained_terminal k) s h = absurd h
apply-Effect (Op.delete_unaccepted k) s h = absurd h
apply-Effect (Op.delete_terminal states before limit) s h = absurd h

pub apply-Change : (op : Op) (s : TaskStore) → Change s (apply op s)
unfolding apply
apply-Change (Op.delete_unretained_terminal k) s = Removal.delete_unretained_terminal-Change s k
apply-Change (Op.delete_unaccepted k) s = Removal.delete_unaccepted-Change s k
apply-Change (Op.delete_terminal states before limit) s =
    Removal.delete_terminal-Change s states before limit
apply-Change op s = effect (apply-Effect op s tt)

pub run-Effect : (ops : List Op) (s : TaskStore) → AllKeeping ops → Effect s (run ops s)
unfolding run
run-Effect [] s h = same s
run-Effect (op ∷ ops) s h = seq (apply-Effect op s h.0) (run-Effect ops (apply op s) h.1)

pub run-Change : (ops : List Op) (s : TaskStore) → Change s (run ops s)
unfolding run
run-Change [] s = effect (same s)
run-Change (op ∷ ops) s = next (apply-Change op s) (run-Change ops (apply op s))
