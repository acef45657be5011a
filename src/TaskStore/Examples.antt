-- ===== src/TaskStore/Examples.antt =====
-- The theorems on the task store at concrete tables: a run that is done, one that is claimed and one
-- that is pending, with a completed and a running step.
use agents_python_cloudflare.Prelude.{
  ℕ, ◌≡◌, refl, ◌≢◌, ◌≤◌, String, true, Option, none, some, List, [], ◌∷◌, map, arith, eq_iff, take,
  length, All, if◌then◌else◌,
}
use mathlib.Core.Logic.{◌↔◌}
use mathlib.Core.List.{Perm}
use agents_python_cloudflare.Sql.{exists, select, first, changes, update}
use agents_python_cloudflare.TaskStore.Rows.{
  RunState, StepState, do_step, TaskRunRow, TaskStepRow, TaskStore,
}
use agents_python_cloudflare.TaskStore.Runs.{
  get, claim_run, claimed_row, pending_row, request_cancel, settle_cancelled_claim, cancelled_row,
}
use agents_python_cloudflare.TaskStore.Steps.{get_step}
use agents_python_cloudflare.TaskStore.Queries.{list, is_listed}
use agents_python_cloudflare.TaskStore.Removal.{
  delete_terminal, selected_for_deletion, is_deletable,
}
use agents_python_cloudflare.TaskStore.RunInvariant.{Advances}
use agents_python_cloudflare.TaskStore.Invariant.{IsValid, reachable-IsValid}
use agents_python_cloudflare.TaskStore.Finality.{terminal_run-run, stored_run-run, settled_step-run}
use agents_python_cloudflare.TaskStore.Exclusive.{AllHarmless, claim-exclusive}
use agents_python_cloudflare.TaskStore.Fencing.{cancel_fence, fence, reclaim-fences}
use agents_python_cloudflare.TaskStore.Cancelling.{request_cancel-effect}
use agents_python_cloudflare.TaskStore.Listing.{Descends, IsOf, IsInAny, list_correct}
use agents_python_cloudflare.TaskStore.Deleting.{named, delete_terminal-effect}
use agents_python_cloudflare.TaskStore.Trace.{Op, apply, run, empty}

abbrev fresh : TaskRunRow
fresh = pending_row "c" "report" none none none true 5

abbrev busy : TaskRunRow
busy = record fresh {
  run_id = "b";
  state = RunState.running;
  attempt = 1;
  generation = some "g1";
  next_at = some 100;
  started_at = some 10;
}

abbrev done : TaskRunRow
done = record fresh {
  run_id = "a";
  state = RunState.completed;
  result = some "42";
  attempt = 1;
  next_at = none;
  started_at = some 6;
  settled_at = some 8;
}

abbrev first_step : TaskStepRow
first_step = record {
  run_id = "b";
  step_name = "fetch";
  kind = do_step;
  state = StepState.completed;
  result = some "7";
  error_name = none;
  error_message = none;
  attempt = 1;
  next_at = none;
  created_at = 11;
  started_at = some 11;
  updated_at = 12;
  completed_at = some 12;
}

abbrev second_step : TaskStepRow
second_step = record first_step {
  step_name = "store";
  state = StepState.running;
  result = none;
  completed_at = none;
}

abbrev tables : TaskStore
tables = record { runs = done ∷ busy ∷ fresh ∷ []; steps = first_step ∷ second_step ∷ [] }

tables-IsValid : IsValid tables
unfolding exists
tables-IsValid = ground arith

abbrev work : List Op
work =
    Op.update_status "b" "g1" "half way" 20
    ∷ Op.complete_step "b" "g1" "fetch" 1 (some "8") 21
    ∷ Op.settle_completed "a" "g1" (some "43") 22
    ∷ Op.claim_run "a" "g2" 200 300
    ∷ []

reachable-IsValid_example : IsValid (run work empty)
reachable-IsValid_example = reachable-IsValid work

terminal_run-run_example : get "a" (run work tables) ≡ some done
unfolding get first
terminal_run-run_example = terminal_run-run work (ground arith) tables "a" done refl refl

stored_run-run_example :
    (r' : TaskRunRow) × (get "b" (run work tables) ≡ some r') × Advances busy r'
unfolding get first
stored_run-run_example = stored_run-run work (ground arith) tables "b" busy refl

settled_step-run_example : get_step "b" "fetch" (run work tables) ≡ some first_step
unfolding get_step first
settled_step-run_example =
    settled_step-run work (ground arith) tables "b" "fetch" first_step refl refl

reclaimed : (claim_run "b" "g2" 120 200 tables).0 ≡ some (claimed_row "g2" 120 200 busy)
unfolding claim_run changes first update
reclaimed = refl

g1_not_g2 : ◌≢◌ {A = String} "g1" "g2"
g1_not_g2 = ground (arith, eq_iff "g1" "g2")

-- What others do while the second holder of the run keeps its claim.
abbrev others : List Op
others =
    Op.update_status "b" "g1" "late" 130
    ∷ Op.complete_step "b" "g2" "fetch" 1 (some "8") 131
    ∷ Op.cancel_parked "c" none 140
    ∷ Op.claim_run "b" "g4" 150 250
    ∷ Op.insert_pending "d" "report" none none none true 160
    ∷ []

g1_not_own : {A : Type 0} → (A × (◌≡◌ {A = String} "g1" "g2")) → ⊥
g1_not_own (_, e) = g1_not_g2 e

others-AllHarmless : AllHarmless "b" "g2" 200 others
others-AllHarmless = ((tt, g1_not_own), (tt, ((tt, λ h. h), (omega arith, ((tt, λ h. h), tt)))))

claim-exclusive_example :
    (get "b" (run others (claim_run "b" "g2" 120 200 tables).1)
      ≡ some (claimed_row "g2" 120 200 busy))
    × (claim_run "b" "g3" 199 300 (run others (claim_run "b" "g2" 120 200 tables).1)
        ≡ (none, run others (claim_run "b" "g2" 120 200 tables).1))
claim-exclusive_example =
    claim-exclusive "b" "g2" 120 200 tables (claimed_row "g2" 120 200 busy) others "g3" 199 300
      tables-IsValid reclaimed others-AllHarmless (omega arith)

reclaim-fences_example :
    apply (Op.settle_completed "b" "g1" (some "9") 130) (claim_run "b" "g2" 120 200 tables).1
    ≡ (claim_run "b" "g2" 120 200 tables).1
reclaim-fences_example =
    reclaim-fences "b" "g1" "g2" 120 200 tables (claimed_row "g2" 120 200 busy)
      (Op.settle_completed "b" "g1" (some "9") 130) tables-IsValid reclaimed g1_not_g2 (refl, refl)

cancelling : (request_cancel "b" "g1" (some "stop") 50 tables).0 ≡ true
unfolding request_cancel changes
cancelling = refl

request_cancel-effect_example :
    let s' = (request_cancel "b" "g1" (some "stop") 50 tables).1 in
    ((op : Op) (g' : String) → fence op ≡ cancel_fence "b" g' → apply op s' ≡ s')
    × ((g' : String) (t' d' : ℕ) → claim_run "b" g' t' d' s' ≡ (none, s'))
    × ((reason' : Option String) (t' : ℕ)
        → ((settle_cancelled_claim "b" "g1" reason' t' s').0 ≡ true)
          × ((r : TaskRunRow) × (get "b" (settle_cancelled_claim "b" "g1" reason' t' s').1
                ≡ some (cancelled_row reason' t' r))))
request_cancel-effect_example =
    request_cancel-effect "b" "g1" (some "stop") 50 tables tables-IsValid cancelling

list_correct_example :
    let l = list none (RunState.running ∷ RunState.pending ∷ []) 1 tables in
    ((sorted : List TaskRunRow) × (l ≡ take 1 sorted)
      × Perm sorted (select (is_listed none (RunState.running ∷ RunState.pending ∷ [])) tables.runs)
      × Descends sorted)
    × ((r : TaskRunRow)
        → (is_listed none (RunState.running ∷ RunState.pending ∷ []) r ≡ true)
          ↔ (IsOf none r × IsInAny (RunState.running ∷ RunState.pending ∷ []) r.state))
    × (length l ≤ 1)
list_correct_example = list_correct none (RunState.running ∷ RunState.pending ∷ []) 1 tables

abbrev settled_states : List RunState
settled_states = RunState.completed ∷ RunState.failed ∷ []

delete_terminal-effect_example :
    let selected = selected_for_deletion settled_states (some 20) 5 tables in
    let (report, s') = delete_terminal settled_states (some 20) 5 tables in
    (report ≡ map (λ (r : TaskRunRow). (r.run_id, r.definition)) selected)
    × (length selected ≤ 5)
    × All (λ r. is_deletable settled_states (some 20) r ≡ true) selected
    × ((j : String) → get j s' ≡ (if named j selected then none else get j tables))
    × ((j n : String) → get_step j n s' ≡ (if named j selected then none else get_step j n tables))
delete_terminal-effect_example = delete_terminal-effect settled_states (some 20) 5 tables
