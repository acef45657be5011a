-- ===== src/TaskStore/Effect/Runs.antt =====
-- The effects of the statements on runs.
use agents_python_cloudflare.Prelude.{
  ℕ, String, Option, Bool, ◌||◌, ◌==◌, inl, inr, Bool-cases, arith,
}
use agents_python_cloudflare.Sql.{exists}
use agents_python_cloudflare.TaskStore.Rows.{TaskRunRow, TaskStore}
use agents_python_cloudflare.TaskStore.Runs
use agents_python_cloudflare.TaskStore.Trace.{or_same}
use agents_python_cloudflare.TaskStore.Effect.Relation.{Effect, same, set_runs, add_run, seq}

module _ (s : TaskStore) where
  pub claim_run-Effect : (k g : String) (t d : ℕ) → Effect s (Runs.claim_run k g t d s).1
  unfolding Runs.claim_run
  claim_run-Effect k g t d = set_runs s _ _ (λ r hit. ground arith)

  pub refresh_claim-Effect : (k g : String) (n t : ℕ) → Effect s (Runs.refresh_claim k g n t s).1
  unfolding Runs.refresh_claim
  refresh_claim-Effect k g n t = set_runs s _ _ (λ x hit. ground arith)

  pub extend_active_claim-Effect :
      (k g : String) (n t : ℕ) → Effect s (Runs.extend_active_claim k g n t s).1
  unfolding Runs.extend_active_claim
  extend_active_claim-Effect k g n t = set_runs s _ _ (λ x hit. ground arith)

  pub update_status-Effect : (k g m : String) (t : ℕ) → Effect s (Runs.update_status k g m t s).1
  unfolding Runs.update_status
  update_status-Effect k g m t = set_runs s _ _ (λ x hit. ground arith)

  pub settle_completed-Effect :
      (k g : String) (r : Option String) (t : ℕ) → Effect s (Runs.settle_completed k g r t s).1
  unfolding Runs.settle_completed
  settle_completed-Effect k g r t = set_runs s _ _ (λ x hit. ground arith)

  pub settle_failed-Effect :
      (k g e m : String) (t : ℕ) → Effect s (Runs.settle_failed k g e m t s).1
  unfolding Runs.settle_failed
  settle_failed-Effect k g e m t = set_runs s _ _ (λ x hit. ground arith)

  pub request_cancel-Effect :
      (k g : String) (r : Option String) (t : ℕ) → Effect s (Runs.request_cancel k g r t s).1
  unfolding Runs.request_cancel
  request_cancel-Effect k g r t = set_runs s _ _ (λ x hit. ground arith)

  pub settle_cancelled_claim-Effect :
      (k g : String) (r : Option String) (t : ℕ)
      → Effect s (Runs.settle_cancelled_claim k g r t s).1
  unfolding Runs.settle_cancelled_claim
  settle_cancelled_claim-Effect k g r t = set_runs s _ _ (λ x hit. ground arith)

  pub backoff_memory_claim-Effect :
      (k g : String) (n t : ℕ) → Effect s (Runs.backoff_memory_claim k g n t s).1
  unfolding Runs.backoff_memory_claim
  backoff_memory_claim-Effect k g n t = set_runs s _ _ (λ x hit. ground arith)

  pub settle_failed_unclaimed-Effect :
      (k e m : String) (t : ℕ) → Effect s (Runs.settle_failed_unclaimed k e m t s).1
  unfolding Runs.settle_failed_unclaimed
  settle_failed_unclaimed-Effect k e m t = set_runs s _ _ (λ x hit. ground arith)

  pub cancel_parked-Effect :
      (k : String) (r : Option String) (t : ℕ) → Effect s (Runs.cancel_parked k r t s).1
  unfolding Runs.cancel_parked
  cancel_parked-Effect k r t = set_runs s _ _ (λ x hit. ground arith)

  pub reconcile_deadlines-Effect : (t : ℕ) → Effect s (Runs.reconcile_deadlines t s)
  unfolding Runs.reconcile_deadlines
  reconcile_deadlines-Effect t =
      seq (set_runs s _ _ (λ x hit. ground arith)) (set_runs _ _ _ (λ x hit. ground arith))

  pub insert_pending-Effect :
      (k d : String) (i m key : Option String) (retain : Bool) (t : ℕ)
      → Effect s (or_same s (Runs.insert_pending k d i m key retain t s))
  unfolding Runs.insert_pending
  insert_pending-Effect k d i m key retain t =
      elim (Bool-cases
        (exists (λ (r : TaskRunRow). r.run_id == k) s.runs || Runs.taken_key key s.runs)) [
          | inl taken ↦ rw taken (same s)
          | inr free ↦ rw free (add_run s _ (ground arith) (ground arith) (ground arith))
        ]
