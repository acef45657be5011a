-- ===== src/Tasks/Replay.antt =====
-- A step whose result is stored is not done again.
use agents_python_cloudflare.Prelude.{
  ℕ, ◌≡◌, refl, ◌∙◌, sym, String, Bool, true, false, ◌&&◌, Option, none, some, List, arith, eq_iff,
}
use agents_python_cloudflare.Sql.{first}
use agents_python_cloudflare.Sql.Rows.{passes, first-update_hit}
use agents_python_cloudflare.Sql.Keys.{IsUnique, IsUnique-IsDistinct, changes-exists, exists_at_key}
use agents_python_cloudflare.TaskStore.Rows.{
  StepState, do_step, TaskStepRow, TaskStore, is_step, fence_holds,
}
use agents_python_cloudflare.TaskStore.Steps.{get_step, is_attempt, complete_step}
use agents_python_cloudflare.TaskStore.Invariant.{IsValid, same_step}
use agents_python_cloudflare.TaskStore.Trace.{Op, run}
use agents_python_cloudflare.TaskStore.Effect.Apply.{AllKeeping}
use agents_python_cloudflare.TaskStore.Finality.{settled_step-run}
use agents_python_cloudflare.Tasks.Policy.{ResolvedStepPolicy}
use agents_python_cloudflare.Tasks.Step.{
  TaskStep, returns, goes_on, returned, enter_step, recorded, look_up, run_step, finish_step,
  or_superseded,
}

step-IsUnique : (k n : String) (s : TaskStore) → IsValid s → IsUnique (is_step k n) s.steps
step-IsUnique k n s v =
    IsUnique-IsDistinct same_step (is_step k n) s.steps
      (λ x y hx hy. ground (
        arith,
        eq_iff x.run_id k,
        eq_iff y.run_id k,
        eq_iff y.run_id x.run_id,
        eq_iff x.step_name n,
        eq_iff y.step_name n,
        eq_iff y.step_name x.step_name,
      ))
      v.step_keys

abbrev completed_row : Option String → ℕ → TaskStepRow → TaskStepRow
completed_row result now row = record row {
  state = StepState.completed;
  result = result;
  next_at = none;
  updated_at = now;
  completed_at = some now;
}

-- A completion that is reported is stored in the row of the step.
complete_step-get :
    (k g n : String) (attempt : ℕ) (result : Option String) (now : ℕ) (s : TaskStore)
    (row : TaskStepRow)
    → IsValid s
    → get_step k n s ≡ some row
    → (complete_step k g n attempt result now s).0 ≡ true
    → get_step k n (complete_step k g n attempt result now s).1
      ≡ some (completed_row result now row)
unfolding complete_step get_step
complete_step-get k g n attempt result now s row v stored done =
    let q : TaskStepRow → Bool = λ t. is_attempt k n attempt t && fence_holds k g s in
    let found : passes q (first (is_step k n) s.steps) ≡ true =
      sym (exists_at_key q (is_step k n) s.steps (λ t h. ground arith) (step-IsUnique k n s v))
      ∙ sym (changes-exists q s.steps)
      ∙ done in
    let hit : q row ≡ true = rw stored at found in
    first-update_hit (is_step k n) q (completed_row result now) s.steps (λ r h. refl) stored
    ∙ rw hit refl

look_up-completed :
    (now : ℕ) (name : String) (t : TaskStep) (s : TaskStore) (row : TaskStepRow)
    → get_step t.run_id name s ≡ some row
    → row.kind ≡ do_step
    → row.state ≡ StepState.completed
    → look_up now name t s ≡ (returns row.result, s)
unfolding look_up recorded
look_up-completed now name t s row stored kind state = rw (stored, look_up) (rw (kind, state) refl)

-- A name that may be entered, of a `do` step whose stored row is completed: the stored result comes
-- back, and the store is as it was.
run_step-completed :
    (policy : ResolvedStepPolicy) (now refreshed_at : ℕ) (name : String) (t : TaskStep)
    (s : TaskStore) (row : TaskStepRow) (m : ℕ)
    → (enter_step name t s).0 ≡ goes_on m
    → get_step t.run_id name s ≡ some row
    → row.kind ≡ do_step
    → row.state ≡ StepState.completed
    → ((run_step policy now refreshed_at name t s).0 ≡ returns row.result)
      × ((run_step policy now refreshed_at name t s).2 ≡ s)
unfolding run_step
run_step-completed policy now refreshed_at name t s row m entered stored kind state =
    rw (entered, look_up-completed now name t s row stored kind state) (refl, refl)

completed_kept :
    (k n : String) (row : TaskStepRow) (result : Option String) (now : ℕ) (s : TaskStore)
    (ops : List Op)
    → AllKeeping ops
    → get_step k n s ≡ some (completed_row result now row)
    → get_step k n (run ops s) ≡ some (completed_row result now row)
completed_kept k n row result now s ops keeping stored =
    settled_step-run ops keeping s k n (completed_row result now row) stored refl

finished_flag :
    (policy : ResolvedStepPolicy) (now : ℕ) (name : String) (attempt : ℕ) (result : Option String)
    (t : TaskStep) (s : TaskStore)
    → (finish_step policy now name attempt (returned result) t s).0 ≡ returns result
    → ((complete_step t.run_id t.generation name attempt result now s).0 ≡ true)
      × ((finish_step policy now name attempt (returned result) t s).1
          ≡ (complete_step t.run_id t.generation name attempt result now s).1)
unfolding finish_step
finished_flag policy now name attempt result t s =
    go (complete_step t.run_id t.generation name attempt result now s)
  where
    go :
        (x : Bool × TaskStore)
        → (or_superseded x (returns result)).0 ≡ returns result
        → (x.0 ≡ true) × ((or_superseded x (returns result)).1 ≡ x.1)
    go (true, s') h = (refl, refl)
    go (false, s') h = absurd (cc)

-- A callback's result is recorded once. On valid tables, let a `do` step's callback have ended with
-- a result and let finish_step have returned it. Then after any operations that delete no run, a
-- later attempt of the run that may enter the step, under whatever generation, policy and times, gets
-- that result back without going on to its callback, and changes nothing.
pub run_step-finish_step :
    (policy policy' : ResolvedStepPolicy) (now now' refreshed_at : ℕ) (name : String) (attempt : ℕ)
    (result : Option String) (t t' : TaskStep) (s : TaskStore) (row : TaskStepRow) (ops : List Op)
    (m : ℕ)
    → IsValid s
    → get_step t.run_id name s ≡ some row
    → row.kind ≡ do_step
    → (finish_step policy now name attempt (returned result) t s).0 ≡ returns result
    → AllKeeping ops
    → t'.run_id ≡ t.run_id
    → (enter_step name t' (run ops (finish_step policy now name attempt (returned result) t s).1)).0
      ≡ goes_on m
    → ((run_step policy' now' refreshed_at name t'
          (run ops (finish_step policy now name attempt (returned result) t s).1)).0
        ≡ returns result)
      × ((run_step policy' now' refreshed_at name t'
            (run ops (finish_step policy now name attempt (returned result) t s).1)).2
          ≡ run ops (finish_step policy now name attempt (returned result) t s).1)
run_step-finish_step policy policy' now now' refreshed_at name attempt result t t' s row ops m valid
      stored kind finished keeping same entered =
    let (done, after) = finished_flag policy now name attempt result t s finished in
    let s1 : TaskStore = (finish_step policy now name attempt (returned result) t s).1 in
    let recorded : get_step t.run_id name s1 ≡ some (completed_row result now row) =
      rw after
        (complete_step-get t.run_id t.generation name attempt result now s row valid stored done) in
    run_step-completed policy' now' refreshed_at name t' (run ops s1) (completed_row result now row)
      m entered (rw same (completed_kept t.run_id name row result now s1 ops keeping recorded)) kind
      refl
