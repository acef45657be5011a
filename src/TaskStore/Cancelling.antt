-- ===== src/TaskStore/Cancelling.antt =====
-- Cancellation of a claimed run.
use agents_python_cloudflare.Prelude.{
  ℕ, ◌≡◌, refl, ◌∙◌, sym, String, true, false, Option, none, some, [], ◌∷◌, arith,
}
use agents_python_cloudflare.Sql.{exists}
use agents_python_cloudflare.Sql.Rows.{updated, passes}
use agents_python_cloudflare.TaskStore.Rows.{TaskRunRow, TaskStore, is_claimed, is_fenced}
use agents_python_cloudflare.TaskStore.Runs.{
  get, claim_run, is_claimable, request_cancel, settle_cancelled_claim, cancelled_row,
}
use agents_python_cloudflare.TaskStore.Invariant.{IsValid, run-IsValid}
use agents_python_cloudflare.TaskStore.View.{exists-get, update_runs-reports, get-update_runs}
use agents_python_cloudflare.TaskStore.Claims.{claim_run_refused, claim-on_key}
use agents_python_cloudflare.TaskStore.Fencing.{cancel_fence, fence, apply-IsDown}
use agents_python_cloudflare.TaskStore.Trace.{Op, apply, run}

-- The row of a run whose cancellation has been requested.
record IsCancelling (k g : String) (s : TaskStore) : Type 0 where
  row : TaskRunRow
  stored : get k s ≡ some row
  claimed : is_claimed k g row ≡ true
  flag : row.cancel_requested ≡ 1
  valid : IsValid s

module _ (k g : String) (reason : Option String) (t : ℕ) (s : TaskStore) where
  request_cancel-IsCancelling :
      IsValid s
      → (request_cancel k g reason t s).0 ≡ true
      → IsCancelling k g (request_cancel k g reason t s).1
  request_cancel-IsCancelling v done = go (get k s) reported after
    where
      set : TaskRunRow → TaskRunRow
      set r = record r {
        cancel_requested = 1;
        cancel_reason = reason;
        next_at = some t;
        updated_at = t;
      }

      reported : passes (is_claimed k g) (get k s) ≡ true
      reported =
          sym (update_runs-reports k (is_claimed k g) set (λ r h. ground arith) (λ r. refl) s v)
          ∙ (unfold request_cancel in done)

      after : get k (request_cancel k g reason t s).1 ≡ updated (is_claimed k g) set (get k s)
      after =
          unfold request_cancel in
          get-update_runs k (is_claimed k g) set (λ r h. ground arith) (λ r. refl) k s

      go :
          (o : Option TaskRunRow)
          → passes (is_claimed k g) o ≡ true
          → get k (request_cancel k g reason t s).1 ≡ updated (is_claimed k g) set o
          → IsCancelling k g (request_cancel k g reason t s).1
      go none h e = absurd (cc)
      go (some r) h e = record {
        row = set r;
        stored = rw h at e;
        claimed = h;
        flag = refl;
        valid = unfold run apply in run-IsValid (Op.request_cancel k g reason t ∷ []) s v;
      }

-- Once a cancellation is requested on valid tables, no operation fenced against cancellation changes
-- anything, under whatever generation it is made, no claim of the run is granted, and the holder of
-- the claim can settle the run as cancelled.
pub request_cancel-effect :
    (k g : String) (reason : Option String) (t : ℕ) (s : TaskStore)
    → IsValid s
    → (request_cancel k g reason t s).0 ≡ true
    → let s' = (request_cancel k g reason t s).1 in
      ((op : Op) (g' : String) → fence op ≡ cancel_fence k g' → apply op s' ≡ s')
      × ((g' : String) (t' d' : ℕ) → claim_run k g' t' d' s' ≡ (none, s'))
      × ((reason' : Option String) (t' : ℕ)
          → ((settle_cancelled_claim k g reason' t' s').0 ≡ true)
            × ((r : TaskRunRow) × (get k (settle_cancelled_claim k g reason' t' s').1
                  ≡ some (cancelled_row reason' t' r))))
request_cancel-effect k g reason t s v done =
    let s' : TaskStore = (request_cancel k g reason t s).1 in
    let c : IsCancelling k g s' = request_cancel-IsCancelling k g reason t s v done in
    (
      λ op g' e. apply-IsDown op s' (rw e (fenced_down s' c g')),
      λ g' t' d'. claim_run_refused k g' t' d' s' (
          exists-get k s' c.valid (is_claimable k t') (claim-on_key k t')
          ∙ rw c.stored (unclaimable t' c.row c.flag)),
      λ reason' t'. (
        unfold settle_cancelled_claim in
            update_runs-reports k (is_claimed k g) (cancelled_row reason' t') (λ r h. ground arith)
              (λ r. refl) s' c.valid
            ∙ rw c.stored c.claimed,
        (
          c.row,
          unfold settle_cancelled_claim in
              get-update_runs k (is_claimed k g) (cancelled_row reason' t') (λ r h. ground arith)
                (λ r. refl) k s'
              ∙ rw (c.stored, c.claimed) refl,
        ),
      ),
    )
  where
    fenced_down :
        (u : TaskStore)
        → IsCancelling k g u
        → (g' : String) → exists (is_fenced k g') u.runs ≡ false
    fenced_down u c g' =
        exists-get k u c.valid (is_fenced k g') (λ r h. ground arith)
        ∙ rw c.stored (unfenced c.row c.flag)
      where
        unfenced : (r : TaskRunRow) → r.cancel_requested ≡ 1 → is_fenced k g' r ≡ false
        unfenced r f = ground arith

    unclaimable : (t' : ℕ) (r : TaskRunRow) → r.cancel_requested ≡ 1 → is_claimable k t' r ≡ false
    unclaimable t' r f = ground arith
