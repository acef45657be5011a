-- ===== src/TaskStore/Effect/Removal.antt =====
-- The effects of the statements that delete.
use agents_python_cloudflare.Prelude.{
  ℕ, String, Option, List, [], ◌∷◌, ◌&&◌, ◌==◌, eqb, inl, inr, Bool-cases, arith,
}
use agents_python_cloudflare.Sql.{exists}
use agents_python_cloudflare.TaskStore.Rows.{RunState, TaskRunRow, TaskStore, is_terminal}
use agents_python_cloudflare.TaskStore.Removal
use agents_python_cloudflare.TaskStore.Effect.Relation.{
  same, Change, effect, drop_new, drop_task, next,
}

module _ (s : TaskStore) where
  pub delete_unaccepted-Change : (k : String) → Change s (Removal.delete_unaccepted k s).1
  unfolding Removal.delete_unaccepted
  delete_unaccepted-Change k = drop_new s _ (λ r hit. ground arith)

  pub delete_unretained_terminal-Change :
      (k : String) → Change s (Removal.delete_unretained_terminal k s).1
  unfolding Removal.delete_unretained_terminal
  delete_unretained_terminal-Change k =
      elim (Bool-cases (
        exists (λ (r : TaskRunRow). r.run_id == k && (eqb r.retain 0 && is_terminal r.state))
          s.runs)) [
            | inl found ↦ rw found (drop_task s k _ (λ r hit. ground arith))
            | inr missing ↦ rw missing (effect (same s))
          ]

pub delete_runs-Change :
    (rs : List TaskRunRow) (s : TaskStore) → Change s (Removal.delete_runs rs s)
unfolding Removal.delete_runs
delete_runs-Change [] s = effect (same s)
delete_runs-Change (r ∷ rs) s =
    next (drop_task s r.run_id _ (λ x hit. hit))
      (delete_runs-Change rs (Removal.delete_run r.run_id s))

pub delete_terminal-Change :
    (s : TaskStore) (states : List RunState) (before : Option ℕ) (limit : ℕ)
    → Change s (Removal.delete_terminal states before limit s).1
unfolding Removal.delete_terminal
delete_terminal-Change s [] before limit = effect (same s)
delete_terminal-Change s (x ∷ states) before limit =
    delete_runs-Change (Removal.selected_for_deletion (x ∷ states) before limit s) s
