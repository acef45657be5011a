-- ===== src/TaskStore/Parked.antt =====
-- Parking: a step and its run change together.
use agents_python_cloudflare.Prelude.{
  ℕ, ◌≡◌, refl, ◌∙◌, ap, String, Bool, true, false, ◌&&◌, not, none, some, List, [], ◌∷◌, arith,
  ltb, if◌then◌else◌, Bool-cases, inl, inr,
}
use mathlib.Core.Path.{fun_ext}
use agents_python_cloudflare.Sql.{update, changes, exists}
use agents_python_cloudflare.Sql.Keys.{changes-exists}
use agents_python_cloudflare.TaskStore.Rows.{
  WaitReason, sleep, retry, TaskStepRow, TaskStore, is_fenced, is_step, fence_holds, commit,
}
use agents_python_cloudflare.TaskStore.Steps.{is_attempt}
use agents_python_cloudflare.TaskStore.Parking.{
  park_run, park_new_sleep, insert_and_park, waiting_sleep, park_step_retry, retry_and_park,
  waiting_retry, parked_row,
}

-- The tables after a run has been parked.
abbrev pub parked : String → String → WaitReason → ℕ → ℕ → TaskStore → TaskStore
parked k g reason w t s = record s { runs = update (is_fenced k g) (parked_row reason w t) s.runs }

park_run_lem :
    (k g : String) (reason : WaitReason) (w t : ℕ) (s : TaskStore)
    → park_run k g reason w t s
      ≡ (if fence_holds k g s then some (parked k g reason w t s) else none)
unfolding park_run
park_run_lem k g reason w t s = rw (changes-exists (is_fenced k g) s.runs) refl

park_run_up :
    (k g : String) (reason : WaitReason) (w t : ℕ) (s : TaskStore)
    → fence_holds k g s ≡ true
    → park_run k g reason w t s ≡ some (parked k g reason w t s)
park_run_up k g reason w t s up = park_run_lem k g reason w t s ∙ rw up refl

-- A fence that holds adds nothing to a test, and one that is down fails it on every row.
and_true : (p : TaskStepRow → Bool) (b : Bool) → b ≡ true → (λ (t : TaskStepRow). p t && b) ≡ p
and_true p b h = fun_ext (λ t. ground arith)

and_false :
    (p : TaskStepRow → Bool) (b : Bool) (ts : List TaskStepRow)
    → b ≡ false
    → exists (λ t. p t && b) ts ≡ false
unfolding exists
and_false p b [] h = refl
and_false p b (t ∷ ts) h = ground (arith, and_false p b ts)

module _ (k g n : String) (w t : ℕ) (s : TaskStore) where
  -- Parking on a new sleep succeeds exactly where the claim's fence holds and the step's name is
  -- free. Then the waiting step is inserted and the run parked with the same wake time; else the
  -- tables are as they were.
  pub park_new_sleep_lem : park_new_sleep k g n w t s ≡ (
      if fence_holds k g s && not (exists (is_step k n) s.steps)
      then (true, parked k g sleep w t (record s { steps = waiting_sleep k n w t ∷ s.steps }))
      else (false, s))
  unfolding park_new_sleep insert_and_park
  park_new_sleep_lem = elim (Bool-cases (fence_holds k g s)) [
    | inl up ↦ elim (Bool-cases (exists (is_step k n) s.steps)) [
      | inl taken ↦ rw (up, taken) refl
      | inr free ↦ rw (up, free) (ap (commit s) (park_run_up k g sleep w t _ up))
    ]
    | inr down ↦ rw down refl
  ]

  -- Parking on a retry succeeds exactly where the claim's fence holds and the step is running at
  -- this attempt. Then both wait for the same time; else the tables are as they were.
  pub park_step_retry_lem :
      (attempt : ℕ)
      → park_step_retry k g n attempt w t s ≡ (
          if fence_holds k g s && exists (is_attempt k n attempt) s.steps
          then (
            true,
            parked k g retry w t
                (record s { steps = update (is_attempt k n attempt) (waiting_retry w t) s.steps }),
          )
          else (false, s))
  unfolding park_step_retry retry_and_park
  park_step_retry_lem attempt = elim (Bool-cases (fence_holds k g s)) [
    | inl up ↦ ap attempted (and_true p (fence_holds k g s) up) ∙ running up
    | inr down ↦ rw (down) (
        rw
          (
            changes-exists (λ (x : TaskStepRow). p x && false) s.steps,
            and_false p false s.steps refl,
          )
          refl)
  ]
    where
      p : TaskStepRow → Bool
      p = is_attempt k n attempt

      attempted : (TaskStepRow → Bool) → Bool × TaskStore
      attempted q = commit s (
          if ltb 0 (changes q s.steps)
          then park_run k g retry w t (record s { steps = update q (waiting_retry w t) s.steps })
          else none)

      running :
          fence_holds k g s ≡ true
          → attempted p ≡ (
              if fence_holds k g s && exists p s.steps
              then (
                true,
                parked k g retry w t (record s { steps = update p (waiting_retry w t) s.steps }),
              )
              else (false, s))
      running up = elim (Bool-cases (exists p s.steps)) [
        | inl found ↦
            rw (up, changes-exists p s.steps, found)
              (ap (commit s) (park_run_up k g retry w t _ up))
        | inr missing ↦ rw (up, changes-exists p s.steps, missing) refl
      ]
