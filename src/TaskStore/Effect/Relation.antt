-- ===== src/TaskStore/Effect/Relation.antt =====
-- The effects of statements on the two tables.
use agents_python_cloudflare.Prelude.{String, ◌≡◌, Bool, true, false, ◌∷◌, ◌==◌}
use agents_python_cloudflare.Sql.{update, delete, exists}
use agents_python_cloudflare.TaskStore.Rows.{
  TaskRunRow, TaskStepRow, TaskStore, is_step, fence_holds,
}
use agents_python_cloudflare.TaskStore.Runs.{taken_key}
use agents_python_cloudflare.TaskStore.RunInvariant.{IsValidRun, IsValidStep, RunStep, StepStep}

-- Effects that delete nothing.
pub data Effect : TaskStore → TaskStore → Type 0 where
  same : (s : TaskStore) → Effect s s
  set_runs :
      (s : TaskStore) (p : TaskRunRow → Bool) (f : TaskRunRow → TaskRunRow)
      → ((r : TaskRunRow) → p r ≡ true → RunStep r (f r))
      → Effect s (record s { runs = update p f s.runs })
  set_steps :
      (s : TaskStore) (p : TaskStepRow → Bool) (f : TaskStepRow → TaskStepRow)
      → ((t : TaskStepRow) → p t ≡ true → StepStep t (f t))
      → Effect s (record s { steps = update p f s.steps })
  add_run :
      (s : TaskStore) (r : TaskRunRow)
      → IsValidRun r
      → exists (λ x. x.run_id == r.run_id) s.runs ≡ false
      → taken_key r.idempotency_key s.runs ≡ false
      → Effect s (record s { runs = r ∷ s.runs })
  add_step :
      (s : TaskStore) (t : TaskStepRow) (generation : String)
      → IsValidStep t
      → fence_holds t.run_id generation s ≡ true
      → exists (is_step t.run_id t.step_name) s.steps ≡ false
      → Effect s (record s { steps = t ∷ s.steps })
  seq : {s t u : TaskStore} → Effect s t → Effect t u → Effect s u

-- Effects with deletions: of runs that never started, and of a task with its steps.
pub data Change : TaskStore → TaskStore → Type 0 where
  effect : {s t : TaskStore} → Effect s t → Change s t
  drop_new :
      (s : TaskStore) (p : TaskRunRow → Bool)
      → ((r : TaskRunRow) → p r ≡ true → r.attempt ≡ 0)
      → Change s (record s { runs = delete p s.runs })
  drop_task :
      (s : TaskStore) (run_id : String) (p : TaskRunRow → Bool)
      → ((r : TaskRunRow) → p r ≡ true → (r.run_id == run_id) ≡ true)
      → Change s
          (record { steps = delete (λ t. t.run_id == run_id) s.steps; runs = delete p s.runs })
  next : {s t u : TaskStore} → Change s t → Change t u → Change s u
