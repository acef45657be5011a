-- ===== src/TaskStore/Fencing.antt =====
-- The fences: a statement made under a claim that is no longer held, or on a run that is being
-- cancelled, changes nothing.
use agents_python_cloudflare.Prelude.{
  [], ◌∷◌, ap, ℕ, ◌≡◌, refl, ◌≢◌, ◌∙◌, String, Bool, false, ◌&&◌, Option, none, some, List, arith,
  eq_iff, ltb, if◌then◌else◌,
}
use agents_python_cloudflare.Sql.{update, changes, exists}
use agents_python_cloudflare.Sql.Rows.{update_none}
use agents_python_cloudflare.Sql.Keys.{changes-exists, exists_weaken}
use agents_python_cloudflare.TaskStore.Rows.{
  WaitReason, sleep, retry, TaskRunRow, TaskStepRow, TaskStore, update_steps, is_claimed, is_fenced,
  fence_holds, commit,
}
use agents_python_cloudflare.TaskStore.Runs
use agents_python_cloudflare.TaskStore.Runs.{get, claim_run}
use agents_python_cloudflare.TaskStore.Steps
use agents_python_cloudflare.TaskStore.Parking
use agents_python_cloudflare.TaskStore.Invariant.{IsValid}
use agents_python_cloudflare.TaskStore.View.{exists-get, update_runs_refused}
use agents_python_cloudflare.TaskStore.Claims.{claimed_get}
use agents_python_cloudflare.TaskStore.Trace.{Op, apply}

-- The run and the generation that an operation is fenced by, and whether its fence lets through a
-- run that is being cancelled.
pub data Fence : Type 0 where
  open_fence : Fence
  claim_fence cancel_fence : String → String → Fence

abbrev pub fence : Op → Fence
fence (Op.refresh_claim k g n t) = cancel_fence k g
fence (Op.extend_active_claim k g n t) = claim_fence k g
fence (Op.update_status k g m t) = cancel_fence k g
fence (Op.settle_completed k g r t) = cancel_fence k g
fence (Op.settle_failed k g e m t) = cancel_fence k g
fence (Op.request_cancel k g r t) = claim_fence k g
fence (Op.settle_cancelled_claim k g r t) = claim_fence k g
fence (Op.backoff_memory_claim k g n t) = cancel_fence k g
fence (Op.insert_step k g n t) = cancel_fence k g
fence (Op.insert_completed_sleep k g n t) = cancel_fence k g
fence (Op.complete_sleep k g n t) = cancel_fence k g
fence (Op.restart_step k g n t) = cancel_fence k g
fence (Op.complete_step k g n a r t) = cancel_fence k g
fence (Op.fail_step k g n a e m t) = cancel_fence k g
fence (Op.park_new_sleep k g n w t) = cancel_fence k g
fence (Op.park_existing_sleep k g w t) = cancel_fence k g
fence (Op.park_step_retry k g n a w t) = cancel_fence k g
fence _ = open_fence

-- The fence is down.
abbrev pub IsDown : TaskStore → Fence → Type 0
IsDown s open_fence = ⊥
IsDown s (claim_fence k g) = exists (is_claimed k g) s.runs ≡ false
IsDown s (cancel_fence k g) = exists (is_fenced k g) s.runs ≡ false

none_pass : (p : TaskStepRow → Bool) (ts : List TaskStepRow) → exists (λ t. p t && false) ts ≡ false
unfolding exists
none_pass p [] = refl
none_pass p (t ∷ ts) = ground (arith, none_pass p ts)

pub update_steps_refused :
    (k g : String) (p : TaskStepRow → Bool) (f : TaskStepRow → TaskStepRow) (s : TaskStore)
    → fence_holds k g s ≡ false
    → update_steps k g p f s ≡ (false, s)
update_steps_refused k g p f s down =
    let quiet : ltb 0 (changes (λ t. p t && false) s.steps) ≡ false =
      changes-exists _ s.steps ∙ none_pass p s.steps in
    ap
      (λ (b : Bool). (
        ltb 0 (changes (λ t. p t && b) s.steps),
        record s { steps = update (λ t. p t && b) f s.steps },
      ))
      down
    ∙ rw (quiet, update_none (λ (t : TaskStepRow). p t && false) f s.steps (ground arith)) refl

pub insert_or_ignore_refused :
    (k g : String) (t : TaskStepRow) (s : TaskStore)
    → fence_holds k g s ≡ false
    → Steps.insert_or_ignore k g t s ≡ (false, s)
insert_or_ignore_refused k g t s down = rw down refl

pub park_run_refused :
    (k g : String) (reason : WaitReason) (w t : ℕ) (s : TaskStore)
    → exists (is_fenced k g) s.runs ≡ false
    → Parking.park_run k g reason w t s ≡ none
unfolding Parking.park_run
park_run_refused k g reason w t s down =
    let quiet : ltb 0 (changes (is_fenced k g) s.runs) ≡ false =
      changes-exists (is_fenced k g) s.runs ∙ down in
    rw quiet refl

-- An operation whose fence is down changes nothing.
pub apply-IsDown : (op : Op) (s : TaskStore) → IsDown s (fence op) → apply op s ≡ s
unfolding apply Runs.refresh_claim Runs.extend_active_claim Runs.update_status Runs.settle_completed
    Runs.settle_failed Runs.request_cancel Runs.settle_cancelled_claim Runs.backoff_memory_claim
    Steps.insert_step Steps.insert_completed_sleep Steps.complete_sleep Steps.restart_step
    Steps.complete_step Steps.fail_step Parking.park_new_sleep Parking.park_existing_sleep
    Parking.park_step_retry Parking.insert_and_park Parking.retry_and_park
apply-IsDown (Op.refresh_claim k g n t) s h =
    ap (λ (x : Bool × TaskStore). x.1) (update_runs_refused _ _ s h)
apply-IsDown (Op.extend_active_claim k g n t) s h =
    ap (λ (x : Bool × TaskStore). x.1) (update_runs_refused _ _ s h)
apply-IsDown (Op.update_status k g m t) s h =
    ap (λ (x : Bool × TaskStore). x.1) (update_runs_refused _ _ s h)
apply-IsDown (Op.settle_completed k g r t) s h =
    ap (λ (x : Bool × TaskStore). x.1) (update_runs_refused _ _ s h)
apply-IsDown (Op.settle_failed k g e m t) s h =
    ap (λ (x : Bool × TaskStore). x.1) (update_runs_refused _ _ s h)
apply-IsDown (Op.request_cancel k g r t) s h =
    ap (λ (x : Bool × TaskStore). x.1) (update_runs_refused _ _ s h)
apply-IsDown (Op.settle_cancelled_claim k g r t) s h =
    ap (λ (x : Bool × TaskStore). x.1) (update_runs_refused _ _ s h)
apply-IsDown (Op.backoff_memory_claim k g n t) s h =
    ap (λ (x : Bool × TaskStore). x.1) (update_runs_refused _ _ s h)
apply-IsDown (Op.insert_step k g n t) s h =
    ap (λ (x : Bool × TaskStore). x.1) (insert_or_ignore_refused k g _ s h)
apply-IsDown (Op.insert_completed_sleep k g n t) s h =
    ap (λ (x : Bool × TaskStore). x.1) (insert_or_ignore_refused k g _ s h)
apply-IsDown (Op.complete_sleep k g n t) s h =
    ap (λ (x : Bool × TaskStore). x.1) (update_steps_refused k g _ _ s h)
apply-IsDown (Op.restart_step k g n t) s h =
    ap (λ (x : Bool × TaskStore). x.1) (update_steps_refused k g _ _ s h)
apply-IsDown (Op.complete_step k g n a r t) s h =
    ap (λ (x : Bool × TaskStore). x.1) (update_steps_refused k g _ _ s h)
apply-IsDown (Op.fail_step k g n a e m t) s h =
    ap (λ (x : Bool × TaskStore). x.1) (update_steps_refused k g _ _ s h)
apply-IsDown (Op.park_new_sleep k g n w t) s h =
    ap
      (λ (x : Bool × TaskStore).
        (commit s (if x.0 then Parking.park_run k g sleep w t x.1 else none)).1)
      (insert_or_ignore_refused k g (Parking.waiting_sleep k n w t) s h)
apply-IsDown (Op.park_existing_sleep k g w t) s h =
    ap (λ (x : Option TaskStore). (commit s x).1) (park_run_refused k g sleep w t s h)
apply-IsDown (Op.park_step_retry k g n a w t) s h =
    ap
      (λ (x : Bool × TaskStore).
        (commit s (if x.0 then Parking.park_run k g retry w t x.1 else none)).1)
      (update_steps_refused k g (Steps.is_attempt k n a) (Parking.waiting_retry w t) s h)
apply-IsDown (Op.insert_pending k d i m key retain t) s h = absurd h
apply-IsDown (Op.reconcile_deadlines t) s h = absurd h
apply-IsDown (Op.claim_run k g t d) s h = absurd h
apply-IsDown (Op.settle_failed_unclaimed k e m t) s h = absurd h
apply-IsDown (Op.cancel_parked k r t) s h = absurd h
apply-IsDown (Op.delete_unretained_terminal k) s h = absurd h
apply-IsDown (Op.delete_unaccepted k) s h = absurd h
apply-IsDown (Op.delete_terminal states before limit) s h = absurd h

-- A fence on a run and a generation.
abbrev pub Guards : Fence → String → String → Type 0
Guards open_fence k g = ⊥
Guards (claim_fence k' g') k g = (k' ≡ k) × (g' ≡ g)
Guards (cancel_fence k' g') k g = (k' ≡ k) × (g' ≡ g)

pub fenced_claimed :
    (k g : String) (s : TaskStore)
    → exists (is_claimed k g) s.runs ≡ false
    → exists (is_fenced k g) s.runs ≡ false
fenced_claimed k g s = exists_weaken (is_fenced k g) (is_claimed k g) s.runs (λ r h. ground arith)

IsDown-unclaimed :
    (f : Fence) (k g : String) (s : TaskStore)
    → Guards f k g
    → exists (is_claimed k g) s.runs ≡ false
    → IsDown s f
IsDown-unclaimed open_fence k g s h down = absurd h
IsDown-unclaimed (claim_fence k' g') k g s (ek, eg) down = rw (ek, eg) down
IsDown-unclaimed (cancel_fence k' g') k g s (ek, eg) down = rw (ek, eg) (fenced_claimed k g s down)

-- A claim fences off the holder before it: on valid tables, once a run has been claimed under a new
-- generation, no operation that is fenced by another generation of that run changes anything.
pub reclaim-fences :
    (k g g' : String) (t d : ℕ) (s : TaskStore) (r : TaskRunRow) (op : Op)
    → IsValid s
    → (claim_run k g' t d s).0 ≡ some r
    → g ≢ g'
    → Guards (fence op) k g
    → apply op (claim_run k g' t d s).1 ≡ (claim_run k g' t d s).1
reclaim-fences k g g' t d s r op valid won ne guards =
    let (stored, valid', held, _, _, _) = claimed_get k g' t d s r valid won in
    let s' : TaskStore = (claim_run k g' t d s).1 in
    let down : exists (is_claimed k g) s'.runs ≡ false =
      exists-get k s' valid' (is_claimed k g) (λ x h. ground arith) ∙ rw stored (lost held) in
    apply-IsDown op s' (IsDown-unclaimed (fence op) k g s' guards down)
  where
    lost : r.generation ≡ some g' → is_claimed k g r ≡ false
    lost held = ground (arith, eq_iff g' g)
