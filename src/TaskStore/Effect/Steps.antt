-- ===== src/TaskStore/Effect/Steps.antt =====
-- The effects of the statements on steps, and of the transactions that park a run.
use agents_python_cloudflare.Prelude.{
  ℕ, String, Option, some, none, Bool, true, false, inl, inr, Bool-cases, arith, if◌then◌else◌, ltb,
}
use agents_python_cloudflare.Sql.{exists, changes}
use agents_python_cloudflare.TaskStore.Rows.{
  WaitReason, sleep, retry, TaskStepRow, TaskStore, fence_holds, is_step, is_fenced, update_steps,
  commit,
}
use agents_python_cloudflare.TaskStore.Steps
use agents_python_cloudflare.TaskStore.Steps.{insert_or_ignore}
use agents_python_cloudflare.TaskStore.Parking
use agents_python_cloudflare.TaskStore.RunInvariant.{IsValidStep}
use agents_python_cloudflare.TaskStore.Effect.Relation.{
  Effect, same, set_runs, set_steps, add_step, seq,
}

module _ (s : TaskStore) where
  pub complete_sleep-Effect : (k g n : String) (t : ℕ) → Effect s (Steps.complete_sleep k g n t s).1
  unfolding Steps.complete_sleep
  complete_sleep-Effect k g n t = set_steps s _ _ (λ x hit. ground arith)

  pub restart_step-Effect : (k g n : String) (t : ℕ) → Effect s (Steps.restart_step k g n t s).1
  unfolding Steps.restart_step
  restart_step-Effect k g n t = set_steps s _ _ (λ x hit. ground arith)

  pub complete_step-Effect :
      (k g n : String) (a : ℕ) (r : Option String) (t : ℕ)
      → Effect s (Steps.complete_step k g n a r t s).1
  unfolding Steps.complete_step
  complete_step-Effect k g n a r t = set_steps s _ _ (λ x hit. ground arith)

  pub fail_step-Effect :
      (k g n : String) (a : ℕ) (e m : String) (t : ℕ) → Effect s (Steps.fail_step k g n a e m t s).1
  unfolding Steps.fail_step
  fail_step-Effect k g n a e m t = set_steps s _ _ (λ x hit. ground arith)

  insert_or_ignore-Effect :
      (g : String) (x : TaskStepRow) → IsValidStep x → Effect s (insert_or_ignore x.run_id g x s).1
  insert_or_ignore-Effect g x v = elim (Bool-cases (fence_holds x.run_id g s)) [
    | inl up ↦ elim (Bool-cases (exists (is_step x.run_id x.step_name) s.steps)) [
      | inl taken ↦ rw (up, taken) (same s)
      | inr free ↦ rw (up, free) (add_step s x g v up free)
    ]
    | inr down ↦ rw down (same s)
  ]

  pub insert_step-Effect : (k g n : String) (t : ℕ) → Effect s (Steps.insert_step k g n t s).1
  unfolding Steps.insert_step
  insert_step-Effect k g n t = insert_or_ignore-Effect g _ (ground arith)

  pub insert_completed_sleep-Effect :
      (k g n : String) (t : ℕ) → Effect s (Steps.insert_completed_sleep k g n t s).1
  unfolding Steps.insert_completed_sleep
  insert_completed_sleep-Effect k g n t = insert_or_ignore-Effect g _ (ground arith)

-- What a transaction leaves behind: all that its body did, or nothing.
abbrev EffectOf : TaskStore → Option TaskStore → Type 0
EffectOf s none = Unit
EffectOf s (some s') = Effect s s'

transaction-Effect : (s : TaskStore) (o : Option TaskStore) → EffectOf s o → Effect s (commit s o).1
transaction-Effect s none e = same s
transaction-Effect s (some s') e = e

EffectOf-seq : {s t : TaskStore} (o : Option TaskStore) → Effect s t → EffectOf t o → EffectOf s o
EffectOf-seq none a b = tt
EffectOf-seq (some u) a b = seq a b

park_run-Effect :
    (k g : String) (reason : WaitReason) (w t : ℕ) (s : TaskStore)
    → EffectOf s (Parking.park_run k g reason w t s)
unfolding Parking.park_run
park_run-Effect k g reason w t s = elim (Bool-cases (ltb 0 (changes (is_fenced k g) s.runs))) [
  | inl parked ↦ rw parked (set_runs s _ _ (λ x hit. ground arith))
  | inr rejected ↦ rw rejected tt
]

-- A first statement that may be refused, and the parking of the run after it.
then_park-Effect :
    (k g : String) (reason : WaitReason) (w t : ℕ) (s s' : TaskStore) (changed : Bool)
    → Effect s s'
    → EffectOf s (if changed then Parking.park_run k g reason w t s' else none)
then_park-Effect k g reason w t s s' true e =
    EffectOf-seq (Parking.park_run k g reason w t s') e (park_run-Effect k g reason w t s')
then_park-Effect k g reason w t s s' false e = tt

module _ (s : TaskStore) where
  pub park_existing_sleep-Effect :
      (k g : String) (w t : ℕ) → Effect s (Parking.park_existing_sleep k g w t s).1
  unfolding Parking.park_existing_sleep
  park_existing_sleep-Effect k g w t = transaction-Effect s _ (park_run-Effect k g sleep w t s)

  pub park_new_sleep-Effect :
      (k g n : String) (w t : ℕ) → Effect s (Parking.park_new_sleep k g n w t s).1
  unfolding Parking.park_new_sleep Parking.insert_and_park
  park_new_sleep-Effect k g n w t =
      let e : Effect s (insert_or_ignore k g (Parking.waiting_sleep k n w t) s).1 =
        insert_or_ignore-Effect s g (Parking.waiting_sleep k n w t) (ground arith) in
      transaction-Effect s (Parking.insert_and_park k g n w t s)
        (then_park-Effect k g sleep w t s _ _ e)

  pub park_step_retry-Effect :
      (k g n : String) (a w t : ℕ) → Effect s (Parking.park_step_retry k g n a w t s).1
  unfolding Parking.park_step_retry Parking.retry_and_park
  park_step_retry-Effect k g n a w t =
      let e : Effect s (update_steps k g (Steps.is_attempt k n a) (Parking.waiting_retry w t) s).1 =
        set_steps s _ _ (λ x hit. ground arith) in
      transaction-Effect s (Parking.retry_and_park k g n a w t s)
        (then_park-Effect k g retry w t s _ _ e)
