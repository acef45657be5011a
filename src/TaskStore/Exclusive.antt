-- ===== src/TaskStore/Exclusive.antt =====
-- How long a granted claim lasts: what other holders, other runs and new claims leave of it.
use agents_python_cloudflare.Prelude.{
  ℕ, ◌≡◌, refl, ◌<◌, ◌∙◌, ap, String, Bool, true, false, ◌||◌, none, some, List, [], ◌∷◌, arith,
  ◌==◌, eq_iff, inl, inr, Bool-cases, if◌then◌else◌,
}
use agents_python_cloudflare.Sql.{exists, first}
use agents_python_cloudflare.Sql.Rows.{updated, first-update}
use agents_python_cloudflare.TaskStore.Rows.{
  WaitReason, sleep, retry, TaskRunRow, TaskStore, is_claimed, is_fenced, update_runs, commit,
}
use agents_python_cloudflare.TaskStore.Runs
use agents_python_cloudflare.TaskStore.Runs.{get, claim_run, is_claimable, pending_row, taken_key}
use agents_python_cloudflare.TaskStore.Steps
use agents_python_cloudflare.TaskStore.Parking
use agents_python_cloudflare.TaskStore.Invariant.{IsValid, run-IsValid}
use agents_python_cloudflare.TaskStore.View.{exists-get, get-run_id}
use agents_python_cloudflare.TaskStore.Claims.{claim-on_key, claim_run_refused, claimed_get}
use agents_python_cloudflare.TaskStore.Fencing.{Guards, fence}
use agents_python_cloudflare.TaskStore.Finality.{first-fresh}
use agents_python_cloudflare.TaskStore.Effect.Apply.{IsKeeping}
use agents_python_cloudflare.TaskStore.Trace.{Op, apply, run, or_same}

-- What may come between: claims that look at the clock before the deadline, every statement on steps
-- alone, and any other operation that is not made under the claim of the run by the generation, that
-- deletes nothing, and that is not the reconciliation of the deadlines.
abbrev pub IsHarmless : String → String → ℕ → Op → Type 0
IsHarmless k g d (Op.reconcile_deadlines t) = ⊥
IsHarmless k g d (Op.claim_run k' g' t d') = t < d
IsHarmless k g d (Op.insert_step k' g' n t) = Unit
IsHarmless k g d (Op.insert_completed_sleep k' g' n t) = Unit
IsHarmless k g d (Op.complete_sleep k' g' n t) = Unit
IsHarmless k g d (Op.restart_step k' g' n t) = Unit
IsHarmless k g d (Op.complete_step k' g' n a x t) = Unit
IsHarmless k g d (Op.fail_step k' g' n a e m t) = Unit
IsHarmless k g d op = IsKeeping op × (Guards (fence op) k g → ⊥)

abbrev pub AllHarmless : String → String → ℕ → List Op → Type 0
AllHarmless k g d [] = Unit
AllHarmless k g d (op ∷ ops) = IsHarmless k g d op × AllHarmless k g d ops

module _ (k g : String) (d : ℕ) (r : TaskRunRow) (held : r.generation ≡ some g)
    (deadline : r.next_at ≡ some d) (own : r.run_id ≡ k) where
  not_claimed : (k' g' : String) → (((k' ≡ k) × (g' ≡ g)) → ⊥) → is_claimed k' g' r ≡ false
  not_claimed k' g' other = elim (Bool-cases (is_claimed k' g' r)) [
    | inl hit ↦ absurd (other (ground (arith, eq_iff r.run_id k'), ground (arith, eq_iff g g')))
    | inr miss ↦ miss
  ]

  not_fenced : (k' g' : String) → (((k' ≡ k) × (g' ≡ g)) → ⊥) → is_fenced k' g' r ≡ false
  not_fenced k' g' other = let miss = not_claimed k' g' other in ground arith

  stays :
      (p : TaskRunRow → Bool) (f : TaskRunRow → TaskRunRow) (s : TaskStore)
      → ((x : TaskRunRow) → (f x).run_id ≡ x.run_id)
      → p r ≡ false
      → get k s ≡ some r
      → get k (update_runs p f s).1 ≡ some r
  unfolding get
  stays p f s keeps miss h =
      first-update _ p f s.runs (λ x hit. rw (keeps x)) ∙ ap (updated p f) h ∙ rw miss refl

  either_store :
      (b : Bool) (x y : Bool × TaskStore)
      → get k x.1 ≡ some r
      → get k y.1 ≡ some r
      → get k (if b then x else y).1 ≡ some r
  either_store true x y hx hy = hx
  either_store false x y hx hy = hy

  inserted :
      (c : Bool) (s s' : TaskStore)
      → get k s ≡ some r
      → (c ≡ false → get k s' ≡ some r)
      → get k (or_same s (if c then none else some s')) ≡ some r
  inserted true s s' h h' = h
  inserted false s s' h h' = h' refl

  committed :
      (b : Bool) (s s' : TaskStore)
      → get k s ≡ some r
      → get k s' ≡ some r
      → get k (commit s (if b then some s' else none)).1 ≡ some r
  committed true s s' h h' = h'
  committed false s s' h h' = h

  parked :
      (k' g' : String) (reason : WaitReason) (w t : ℕ) (s s' : TaskStore)
      → (((k' ≡ k) × (g' ≡ g)) → ⊥)
      → get k s ≡ some r
      → get k s' ≡ some r
      → get k (commit s (Parking.park_run k' g' reason w t s')).1 ≡ some r
  unfolding Parking.park_run
  parked k' g' reason w t s s' other h h' =
      committed _ s _ h (stays _ _ s' (λ x. refl) (not_fenced k' g' other) h')

  then_parked :
      (k' g' : String) (reason : WaitReason) (w t : ℕ) (s : TaskStore) (x : Bool × TaskStore)
      → (((k' ≡ k) × (g' ≡ g)) → ⊥)
      → get k s ≡ some r
      → get k x.1 ≡ some r
      → get k (commit s (if x.0 then Parking.park_run k' g' reason w t x.1 else none)).1 ≡ some r
  then_parked k' g' reason w t s (true, s') other h h' = parked k' g' reason w t s s' other h h'
  then_parked k' g' reason w t s (false, s') other h h' = h

  harmless-keeps :
      (op : Op) (s : TaskStore)
      → IsHarmless k g d op
      → get k s ≡ some r
      → get k (apply op s) ≡ some r
  unfolding apply Runs.refresh_claim Runs.extend_active_claim Runs.update_status
      Runs.settle_completed Runs.settle_failed Runs.request_cancel Runs.settle_cancelled_claim
      Runs.backoff_memory_claim Runs.settle_failed_unclaimed Runs.cancel_parked Runs.insert_pending
      Runs.claim_run Steps.insert_step Steps.insert_completed_sleep Steps.complete_sleep
      Steps.restart_step Steps.complete_step Steps.fail_step Parking.park_new_sleep
      Parking.park_existing_sleep Parking.park_step_retry Parking.insert_and_park
      Parking.retry_and_park
  harmless-keeps (Op.refresh_claim k' g' n t) s (_, other) h =
      stays _ _ s (λ x. refl) (not_fenced k' g' other) h
  harmless-keeps (Op.extend_active_claim k' g' n t) s (_, other) h =
      stays _ _ s (λ x. refl) (not_claimed k' g' other) h
  harmless-keeps (Op.update_status k' g' m t) s (_, other) h =
      stays _ _ s (λ x. refl) (not_fenced k' g' other) h
  harmless-keeps (Op.settle_completed k' g' x t) s (_, other) h =
      stays _ _ s (λ x. refl) (not_fenced k' g' other) h
  harmless-keeps (Op.settle_failed k' g' e m t) s (_, other) h =
      stays _ _ s (λ x. refl) (not_fenced k' g' other) h
  harmless-keeps (Op.request_cancel k' g' x t) s (_, other) h =
      stays _ _ s (λ x. refl) (not_claimed k' g' other) h
  harmless-keeps (Op.settle_cancelled_claim k' g' x t) s (_, other) h =
      stays _ _ s (λ x. refl) (not_claimed k' g' other) h
  harmless-keeps (Op.backoff_memory_claim k' g' n t) s (_, other) h =
      stays _ _ s (λ x. refl) (not_fenced k' g' other) h
  harmless-keeps (Op.settle_failed_unclaimed k' e m t) s _ h =
      stays _ _ s (λ x. refl) (ground arith) h
  harmless-keeps (Op.cancel_parked k' x t) s _ h = stays _ _ s (λ x. refl) (ground arith) h
  harmless-keeps (Op.claim_run k' g' t d') s early h = stays _ _ s (λ x. refl) (ground arith) h
  harmless-keeps (Op.insert_pending k' e i m key retain t) s _ h =
      inserted (exists (λ x. x.run_id == k') s.runs || taken_key key s.runs) s _ h
        (λ free. unfold get first in rw (first-fresh k k' s.runs h (ground arith)) h)
  harmless-keeps (Op.insert_step k' g' n t) s _ h = either_store _ _ _ h h
  harmless-keeps (Op.insert_completed_sleep k' g' n t) s _ h = either_store _ _ _ h h
  harmless-keeps (Op.complete_sleep k' g' n t) s _ h = h
  harmless-keeps (Op.restart_step k' g' n t) s _ h = h
  harmless-keeps (Op.complete_step k' g' n a x t) s _ h = h
  harmless-keeps (Op.fail_step k' g' n a e m t) s _ h = h
  harmless-keeps (Op.park_new_sleep k' g' n w t) s (_, other) h =
      then_parked k' g' sleep w t s _ other h (either_store _ _ _ h h)
  harmless-keeps (Op.park_existing_sleep k' g' w t) s (_, other) h =
      parked k' g' sleep w t s s other h h
  harmless-keeps (Op.park_step_retry k' g' n a w t) s (_, other) h =
      then_parked k' g' retry w t s _ other h h
  harmless-keeps (Op.reconcile_deadlines t) s out h = absurd out
  harmless-keeps (Op.delete_unretained_terminal k') s out h = absurd out.0
  harmless-keeps (Op.delete_unaccepted k') s out h = absurd out.0
  harmless-keeps (Op.delete_terminal states before limit) s out h = absurd out.0

  pub run-keeps :
      (ops : List Op) (s : TaskStore)
      → AllHarmless k g d ops
      → get k s ≡ some r
      → get k (run ops s) ≡ some r
  unfolding run
  run-keeps [] s harmless h = h
  run-keeps (op ∷ ops) s harmless h =
      run-keeps ops (apply op s) harmless.1 (harmless-keeps op s harmless.0 h)

-- A granted claim is exclusive until its deadline. On valid tables, after a claim that returned a
-- row, take any sequence of claims that look at the clock before the deadline, of statements on steps
-- alone, the holder's own among them, and of other operations that are not made under that claim, that
-- delete nothing and that are not the reconciliation of the deadlines: the run is still exactly that row, and a claim of it before the deadline returns
-- nothing and changes nothing.
pub claim-exclusive :
    (k g : String) (t d : ℕ) (s : TaskStore) (r : TaskRunRow) (ops : List Op) (g' : String)
    (t' d' : ℕ)
    → IsValid s
    → (claim_run k g t d s).0 ≡ some r
    → AllHarmless k g d ops
    → t' < d
    → (get k (run ops (claim_run k g t d s).1) ≡ some r)
      × (claim_run k g' t' d' (run ops (claim_run k g t d s).1)
          ≡ (none, run ops (claim_run k g t d s).1))
claim-exclusive k g t d s r ops g' t' d' valid won harmless early =
    let (stored, valid', held, deadline, _, _) = claimed_get k g t d s r valid won in
    let own : r.run_id ≡ k = get-run_id k (claim_run k g t d s).1 stored in
    let kept = run-keeps k g d r held deadline own ops (claim_run k g t d s).1 harmless stored in
    let after : TaskStore = run ops (claim_run k g t d s).1 in
    (
      kept,
      claim_run_refused k g' t' d' after (
          exists-get k after (run-IsValid ops (claim_run k g t d s).1 valid') (is_claimable k t')
            (claim-on_key k t')
          ∙ rw kept (ground arith)),
    )
