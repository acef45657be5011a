-- ===== src/TaskStore/View.antt =====
-- The abstract task store: a map from run ids to runs. On tables with unique ids, an UPDATE of one
-- id is an update of the map at that id, and reports whether the row there passed its test.
use agents_python_cloudflare.Prelude.{
  ◌≡◌, refl, ◌∙◌, String, Bool, true, false, some, arith, ◌==◌, eq_iff, ltb,
}
use agents_python_cloudflare.Sql.{changes, exists}
use agents_python_cloudflare.Sql.Rows.{updated, passes, first-update, update_none}
use agents_python_cloudflare.Sql.Keys.{
  first_passes, IsUnique, changes-exists, exists_at_key, IsUnique-IsDistinct,
}
use agents_python_cloudflare.TaskStore.Rows.{TaskRunRow, TaskStore, update_runs}
use agents_python_cloudflare.TaskStore.Runs.{get}
use agents_python_cloudflare.TaskStore.Invariant.{IsValid, same_run}

module _ (k : String) (s : TaskStore) (valid : IsValid s) where
  id-IsUnique : IsUnique (λ (x : TaskRunRow). x.run_id == k) s.runs
  id-IsUnique =
      IsUnique-IsDistinct same_run _ s.runs
        (λ x y hx hy.
          ground (arith, eq_iff x.run_id k, eq_iff y.run_id k, eq_iff y.run_id x.run_id))
        valid.run_ids

  -- A test on one id is decided by the row of that id.
  pub exists-get :
      (p : TaskRunRow → Bool)
      → ((r : TaskRunRow) → p r ≡ true → (r.run_id == k) ≡ true)
      → exists p s.runs ≡ passes p (get k s)
  unfolding get
  exists-get p on_key = exists_at_key p _ s.runs on_key id-IsUnique

-- An UPDATE of one id, seen through `get`: whether it reports a change, and every row after it.
module _ (k : String) (p : TaskRunRow → Bool) (f : TaskRunRow → TaskRunRow)
    (on_key : (r : TaskRunRow) → p r ≡ true → (r.run_id == k) ≡ true)
    (keeps_id : (r : TaskRunRow) → (f r).run_id ≡ r.run_id) where
  pub update_runs-reports : (s : TaskStore) → IsValid s → (update_runs p f s).0 ≡ passes p (get k s)
  update_runs-reports s v = changes-exists p s.runs ∙ exists-get k s v p on_key

  pub get-update_runs :
      (j : String) (s : TaskStore) → get j (update_runs p f s).1 ≡ updated p f (get j s)
  unfolding get
  get-update_runs j s = first-update _ p f s.runs (λ r hit. rw (keeps_id r))

-- A statement that no row passes reports nothing and changes nothing.
pub update_runs_refused :
    (p : TaskRunRow → Bool) (f : TaskRunRow → TaskRunRow) (s : TaskStore)
    → exists p s.runs ≡ false
    → update_runs p f s ≡ (false, s)
update_runs_refused p f s h =
    let quiet : ltb 0 (changes p s.runs) ≡ false = changes-exists p s.runs ∙ h in
    rw (quiet, update_none p f s.runs (ground arith)) refl

-- What a query of one id finds has that id.
pub get-run_id : (k : String) (s : TaskStore) {r : TaskRunRow} → get k s ≡ some r → r.run_id ≡ k
unfolding get
get-run_id k s {r} h = (eq_iff r.run_id k).0 (first_passes _ s.runs h)
