-- ===== src/TaskStore/Removal.antt =====
-- The statements of agents/_task_store.py that delete runs, with their steps.
use agents_python_cloudflare.Prelude.{
  ℕ, String, Bool, true, false, ◌&&◌, Option, none, some, List, [], ◌∷◌, map, ◌==◌, eqb, ltb,
  is_none, is_before, if◌then◌else◌, take,
}
use agents_python_cloudflare.Sql.{select, delete, changes, exists, order_by}
use agents_python_cloudflare.TaskStore.Rows.{
  RunState, TaskRunRow, TaskStore, is_terminal, transaction,
}
use agents_python_cloudflare.TaskStore.Queries.{state_in, by_settled}

unfoldable pub delete_unretained_terminal : String → TaskStore → Bool × TaskStore
delete_unretained_terminal run_id = transaction (λ s.
    if exists (λ r. r.run_id == run_id && (eqb r.retain 0 && is_terminal r.state)) s.runs
    then some (record {
      steps = delete (λ t. t.run_id == run_id) s.steps;
      runs = delete (λ r. r.run_id == run_id && eqb r.retain 0) s.runs;
    })
    else none)

abbrev pub is_pending : RunState → Bool
is_pending RunState.pending = true
is_pending _ = false

abbrev pub is_unaccepted : String → TaskRunRow → Bool
is_unaccepted run_id r =
    r.run_id == run_id && (is_pending r.state && (eqb r.attempt 0 && is_none r.generation))

unfoldable pub delete_unaccepted : String → TaskStore → Bool × TaskStore
delete_unaccepted run_id s = (
  ltb 0 (changes (is_unaccepted run_id) s.runs),
  record s { runs = delete (is_unaccepted run_id) s.runs },
)

-- The two DELETEs of one run.
unfoldable pub delete_run : String → TaskStore → TaskStore
delete_run run_id s = record {
  steps = delete (λ t. t.run_id == run_id) s.steps;
  runs = delete (λ r. r.run_id == run_id) s.runs;
}

-- The loop over the selected runs, inside one transaction that nothing rejects.
unfoldable pub delete_runs : List TaskRunRow → TaskStore → TaskStore
unfolding delete_run
delete_runs [] s = s
delete_runs (r ∷ rs) s = delete_runs rs (delete_run r.run_id s)

abbrev pub is_deletable : List RunState → Option ℕ → TaskRunRow → Bool
is_deletable states none r = state_in states r.state
is_deletable states (some t) r = state_in states r.state && is_before r.settled_at t

-- No states select no run, so the early return on them is the case of an empty selection. The
-- caller's states are terminal ones.
unfoldable pub selected_for_deletion : List RunState → Option ℕ → ℕ → TaskStore → List TaskRunRow
selected_for_deletion states settled_before limit s =
    take limit (order_by by_settled (select (is_deletable states settled_before) s.runs))

unfoldable pub delete_terminal :
    List RunState → Option ℕ → ℕ → TaskStore → List (String × String) × TaskStore
unfolding selected_for_deletion delete_runs
delete_terminal [] settled_before limit s = ([], s)
delete_terminal states settled_before limit s =
    let selected = selected_for_deletion states settled_before limit s in
    (map (λ r. (r.run_id, r.definition)) selected, delete_runs selected s)
