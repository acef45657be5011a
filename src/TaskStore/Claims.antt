-- ===== src/TaskStore/Claims.antt =====
-- Claims: who gets a run, and for how long.
use agents_python_cloudflare.Prelude.{
  ℕ, ◌≡◌, refl, ◌∙◌, ap, sym, [], ◌∷◌, String, Bool, true, false, Option, none, some, arith, ◌==◌,
  if◌then◌else◌,
}
use agents_python_cloudflare.Sql.{exists}
use agents_python_cloudflare.Sql.Rows.{updated}
use agents_python_cloudflare.TaskStore.Rows.{RunState, TaskRunRow, TaskStore}
use agents_python_cloudflare.TaskStore.Runs.{get, claim_run, is_claimable, claimed_row}
use agents_python_cloudflare.TaskStore.Invariant.{IsValid}
use agents_python_cloudflare.TaskStore.Invariant.{run-IsValid}
use agents_python_cloudflare.TaskStore.View.{
  update_runs-reports, get-update_runs, update_runs_refused,
}
use agents_python_cloudflare.TaskStore.Trace.{Op, apply, run}

-- What a claim returns, by what was stored.
abbrev pub granted : String → String → ℕ → ℕ → Option TaskRunRow → Option TaskRunRow
granted k g t d none = none
granted k g t d (some r) = if is_claimable k t r then some (claimed_row g t d r) else none

pub claim-on_key :
    (k : String) (t : ℕ) (r : TaskRunRow) → is_claimable k t r ≡ true → (r.run_id == k) ≡ true
claim-on_key k t r h = ground arith

module _ (k g : String) (t d : ℕ) (s : TaskStore) (valid : IsValid s) where
  -- On valid tables a claim returns a row exactly where the run is stored, live, not being
  -- cancelled, and past its deadline: that row with the claim written into it, as a query then
  -- finds it. Every other run stays as it is.
  pub claim_run-result :
      ((claim_run k g t d s).0 ≡ granted k g t d (get k s))
      × ((j : String)
          → get j (claim_run k g t d s).1
            ≡ updated (is_claimable k t) (claimed_row g t d) (get j s))
  unfolding claim_run
  claim_run-result = (
    rw
        (
          update_runs-reports k (is_claimable k t) (claimed_row g t d) (claim-on_key k t)
              (λ r. refl) s valid,
          get-update_runs k (is_claimable k t) (claimed_row g t d) (claim-on_key k t) (λ r. refl) k
              s,
        )
        (ground arith),
    λ j.
        get-update_runs k (is_claimable k t) (claimed_row g t d) (claim-on_key k t) (λ r. refl) j s,
  )

pub claim_run_refused :
    (k g : String) (t d : ℕ) (s : TaskStore)
    → exists (is_claimable k t) s.runs ≡ false
    → claim_run k g t d s ≡ (none, s)
unfolding claim_run
claim_run_refused k g t d s h =
    ap (λ (r : Bool × TaskStore). ((if r.0 then get k r.1 else none), r.1))
      (update_runs_refused (is_claimable k t) (claimed_row g t d) s h)

claim_run-IsValid :
    (k g : String) (t d : ℕ) (s : TaskStore) → IsValid s → IsValid (claim_run k g t d s).1
claim_run-IsValid k g t d s v = unfold run apply in run-IsValid (Op.claim_run k g t d ∷ []) s v

-- A granted claim, seen afterwards: the row of the run is the one returned, with the claim in it.
pub claimed_get :
    (k g : String) (t d : ℕ) (s : TaskStore) (r : TaskRunRow)
    → IsValid s
    → (claim_run k g t d s).0 ≡ some r
    → (get k (claim_run k g t d s).1 ≡ some r)
      × IsValid (claim_run k g t d s).1
      × (r.generation ≡ some g)
      × (r.next_at ≡ some d)
      × (r.cancel_requested ≡ 0)
      × (r.state ≡ RunState.running)
claimed_get k g t d s r valid won =
    let (result, others) = claim_run-result k g t d s valid in
    go (get k s) (sym won ∙ result) (others k)
  where
    go :
        (o : Option TaskRunRow)
        → some r ≡ granted k g t d o
        → get k (claim_run k g t d s).1 ≡ updated (is_claimable k t) (claimed_row g t d) o
        → (get k (claim_run k g t d s).1 ≡ some r)
          × IsValid (claim_run k g t d s).1
          × (r.generation ≡ some g)
          × (r.next_at ≡ some d)
          × (r.cancel_requested ≡ 0)
          × (r.state ≡ RunState.running)
    go none e after = absurd (cc)
    go (some x) e after = (
      ground arith,
      claim_run-IsValid k g t d s valid,
      ground arith,
      ground arith,
      ground arith,
      ground arith,
    )
