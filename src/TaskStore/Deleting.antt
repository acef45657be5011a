-- ===== src/TaskStore/Deleting.antt =====
-- What the clean-up of settled tasks deletes, and what it leaves.
use agents_python_cloudflare.Prelude.{
  zero, suc, ℕ, ◌≡◌, refl, ◌∙◌, sym, ◌≤◌, String, Bool, true, false, ◌&&◌, Option, none, some, List,
  [], ◌∷◌, map, arith, ◌==◌, eq_iff, take, length, length-take_le, All, All-take, if◌then◌else◌,
  Bool-cases, inl, inr,
}
use agents_python_cloudflare.Sql.{select, order_by, exists}
use agents_python_cloudflare.Sql.Rows.{All-select}
use agents_python_cloudflare.Sql.Keys.{first-delete, first-none, exists-delete_self}
use agents_python_cloudflare.Sql.Query.{exists-query}
use agents_python_cloudflare.TaskStore.Invariant.{IsValid}
use agents_python_cloudflare.TaskStore.View.{exists-get}
use agents_python_cloudflare.Sql.Sorting.{All-order_by}
use agents_python_cloudflare.TaskStore.Rows.{
  RunState, TaskRunRow, TaskStore, is_live, is_terminal, is_step,
}
use agents_python_cloudflare.TaskStore.Runs.{get}
use agents_python_cloudflare.TaskStore.Steps.{get_step}
use agents_python_cloudflare.TaskStore.Queries.{state_in, same_state, by_settled}
use agents_python_cloudflare.TaskStore.Removal.{
  delete_run, delete_runs, is_deletable, selected_for_deletion, delete_terminal,
}

-- One of the rows has this run id.
abbrev pub named : String → List TaskRunRow → Bool
named j = exists (λ (r : TaskRunRow). r.run_id == j)

get-delete_run :
    (j k : String) (s : TaskStore) → get j (delete_run k s) ≡ (if k == j then none else get j s)
unfolding get delete_run
get-delete_run j k s = elim (Bool-cases (k == j)) [
  | inl same ↦ rw same (
      first-none (λ (x : TaskRunRow). x.run_id == j) _
        (exists-delete_self _ _ s.runs
          (λ x h. ground (arith, eq_iff k j, eq_iff x.run_id j, eq_iff x.run_id k))))
  | inr other ↦ rw other (
      first-delete _ _ s.runs
        (λ x h. ground (arith, eq_iff k j, eq_iff x.run_id j, eq_iff x.run_id k)))
]

get_step-delete_run :
    (j n k : String) (s : TaskStore)
    → get_step j n (delete_run k s) ≡ (if k == j then none else get_step j n s)
unfolding get_step delete_run
get_step-delete_run j n k s = elim (Bool-cases (k == j)) [
  | inl same ↦ rw same (
      first-none (is_step j n) _ (
        exists-delete_self _ _ s.steps
          (λ x h. ground (arith, eq_iff k j, eq_iff x.run_id j, eq_iff x.run_id k))))
  | inr other ↦ rw other (
      first-delete _ _ s.steps
        (λ x h. ground (arith, eq_iff k j, eq_iff x.run_id j, eq_iff x.run_id k)))
]

get-delete_runs :
    (j : String) (rs : List TaskRunRow) (s : TaskStore)
    → get j (delete_runs rs s) ≡ (if named j rs then none else get j s)
unfolding delete_runs exists
get-delete_runs j [] s = refl
get-delete_runs j (r ∷ rs) s =
    get-delete_runs j rs (delete_run r.run_id s) ∙ ground (arith, get-delete_run j r.run_id s)

get_step-delete_runs :
    (j n : String) (rs : List TaskRunRow) (s : TaskStore)
    → get_step j n (delete_runs rs s) ≡ (if named j rs then none else get_step j n s)
unfolding delete_runs exists
get_step-delete_runs j n [] s = refl
get_step-delete_runs j n (r ∷ rs) s =
    get_step-delete_runs j n rs (delete_run r.run_id s)
    ∙ ground (arith, get_step-delete_run j n r.run_id s)

no_state_deletable :
    (before : Option ℕ) (rs : List TaskRunRow) → select (is_deletable [] before) rs ≡ []
unfolding select
no_state_deletable before [] = refl
no_state_deletable none (r ∷ rs) = no_state_deletable none rs
no_state_deletable (some t) (r ∷ rs) = no_state_deletable (some t) rs

selected_none :
    (before : Option ℕ) (limit : ℕ) (s : TaskStore) → selected_for_deletion [] before limit s ≡ []
unfolding selected_for_deletion order_by
selected_none before limit s = rw (no_state_deletable before s.runs) (take_nil limit)
  where
    take_nil : (n : ℕ) → take {A = TaskRunRow} n [] ≡ []
    take_nil zero = refl
    take_nil (suc n) = refl

delete_terminal_lem :
    (states : List RunState) (before : Option ℕ) (limit : ℕ) (s : TaskStore)
    → let selected = selected_for_deletion states before limit s in
      delete_terminal states before limit s
      ≡ (map (λ (r : TaskRunRow). (r.run_id, r.definition)) selected, delete_runs selected s)
unfolding delete_terminal
delete_terminal_lem [] before limit s =
    rw (selected_none before limit s) (unfold delete_runs in refl)
delete_terminal_lem (x ∷ states) before limit s = refl

selected-All :
    (states : List RunState) (before : Option ℕ) (limit : ℕ) (s : TaskStore)
    → All (λ r. is_deletable states before r ≡ true) (selected_for_deletion states before limit s)
unfolding selected_for_deletion
selected-All states before limit s =
    All-take _ limit _
      (All-order_by by_settled _ _ (All-select _ (is_deletable states before) s.runs (λ r h. h)))

selected-length :
    (states : List RunState) (before : Option ℕ) (limit : ℕ) (s : TaskStore)
    → length (selected_for_deletion states before limit s) ≤ limit
unfolding selected_for_deletion
selected-length states before limit s = length-take_le limit _

-- A clean-up reports the ids and definitions of the runs that it selected: at most `limit`, each in
-- one of the asked states and settled before the asked time. Of each selected id it deletes the run
-- and every step; every run and every step of any other id stays as it was.
pub delete_terminal-effect :
    (states : List RunState) (before : Option ℕ) (limit : ℕ) (s : TaskStore)
    → let selected = selected_for_deletion states before limit s in
      let (report, s') = delete_terminal states before limit s in
      (report ≡ map (λ (r : TaskRunRow). (r.run_id, r.definition)) selected)
      × (length selected ≤ limit)
      × All (λ r. is_deletable states before r ≡ true) selected
      × ((j : String) → get j s' ≡ (if named j selected then none else get j s))
      × ((j n : String) → get_step j n s' ≡ (if named j selected then none else get_step j n s))
delete_terminal-effect states before limit s = rw (delete_terminal_lem states before limit s) (
  refl,
  selected-length states before limit s,
  selected-All states before limit s,
  λ j. get-delete_runs j (selected_for_deletion states before limit s) s,
  λ j n. get_step-delete_runs j n (selected_for_deletion states before limit s) s,
)

deletable_terminal :
    (states : List RunState) (before : Option ℕ) (r : TaskRunRow)
    → All (λ x. is_terminal x ≡ true) states
    → is_deletable states before r ≡ true
    → is_terminal r.state ≡ true
deletable_terminal states before r terminal h =
    state_in_terminal states r.state terminal (ground arith)
  where
    state_in_terminal :
        (xs : List RunState) (x : RunState)
        → All (λ y. is_terminal y ≡ true) xs
        → state_in xs x ≡ true
        → is_terminal x ≡ true
    state_in_terminal [] x t i = absurd (cc)
    state_in_terminal (y ∷ ys) x t i = elim (Bool-cases (same_state y x)) [
      | inl same ↦ ground arith
      | inr other ↦ state_in_terminal ys x t.1 (rw other at i)
    ]

-- On valid tables a clean-up that asks for settled states only leaves every live run, and its steps.
pub delete_terminal-live :
    (states : List RunState) (before : Option ℕ) (limit : ℕ) (s : TaskStore) (j : String)
    (r : TaskRunRow)
    → IsValid s
    → All (λ x. is_terminal x ≡ true) states
    → get j s ≡ some r
    → is_live r.state ≡ true
    → let s' = (delete_terminal states before limit s).1 in
      (get j s' ≡ some r) × ((n : String) → get_step j n s' ≡ get_step j n s)
delete_terminal-live states before limit s j r valid terminal stored live =
    let (_, _, _, runs, steps) = delete_terminal-effect states before limit s in
    (runs j ∙ rw unselected stored, λ n. steps j n ∙ rw unselected refl)
  where
    deletable : TaskRunRow → Bool
    deletable x = x.run_id == j && is_deletable states before x

    unselected : named j (selected_for_deletion states before limit s) ≡ false
    unselected = elim (Bool-cases (named j (selected_for_deletion states before limit s))) [
      | inl hit ↦
          let found : exists deletable s.runs ≡ true =
            exists-query _ (is_deletable states before) by_settled limit s.runs
              (unfold selected_for_deletion in hit) in
          let here : deletable r ≡ true =
            sym (exists-get j s valid deletable (λ x h. ground arith) ∙ rw stored refl) ∙ found in
          absurd (ground (arith, deletable_terminal states before r terminal))
      | inr miss ↦ miss
    ]
