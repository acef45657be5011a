-- ===== src/TaskStore/Finality.antt =====
-- What a sequence of operations leaves of a run and of a step: columns that never change, and rows
-- that are final.
use agents_python_cloudflare.Prelude.{
  ◌≡◌, refl, ◌∙◌, ap, ◌&&◌, String, Bool, true, false, ◌||◌, Option, some, List, arith, ◌==◌,
  eq_iff, inl, inr, Bool-cases, if◌then◌else◌,
}
use agents_python_cloudflare.Sql.{exists, first}
use agents_python_cloudflare.Sql.Rows.{first-update_hit}
use agents_python_cloudflare.Sql.Keys.{exists_first}
use agents_python_cloudflare.TaskStore.Rows.{
  TaskRunRow, TaskStepRow, TaskStore, is_terminal, is_step,
}
use agents_python_cloudflare.TaskStore.Runs.{get}
use agents_python_cloudflare.TaskStore.Steps.{get_step, is_step_running, is_step_waiting}
use agents_python_cloudflare.TaskStore.RunInvariant.{Advances, StepAdvances, RunStep, StepStep}
use agents_python_cloudflare.TaskStore.Trace.{Op, run}
use agents_python_cloudflare.TaskStore.Effect.Relation.{
  Effect, same, set_runs, set_steps, add_run, add_step, seq,
}
use agents_python_cloudflare.TaskStore.Effect.Apply.{AllKeeping, run-Effect}

-- What later holds of a stored run: it is still there, and a settled one is untouched.
abbrev pub KeptRun : TaskRunRow → Option TaskRunRow → Type 0
KeptRun r o =
    (r' : TaskRunRow) × (o ≡ some r') × Advances r r' × (is_terminal r.state ≡ true → r' ≡ r)

abbrev pub is_open : TaskStepRow → Bool
is_open t = is_step_running t.state || is_step_waiting t.state

abbrev pub KeptStep : TaskStepRow → Option TaskStepRow → Type 0
KeptStep t o = (t' : TaskStepRow) × (o ≡ some t') × StepAdvances t t' × (is_open t ≡ false → t' ≡ t)

Advances-refl : (r : TaskRunRow) → Advances r r
Advances-refl r = ground arith

KeptRun-same : (r : TaskRunRow) (o : Option TaskRunRow) → o ≡ some r → KeptRun r o
KeptRun-same r o e = (r, e, ground arith, λ h. refl)

KeptRun-step :
    (p : TaskRunRow → Bool) (f : TaskRunRow → TaskRunRow) (r : TaskRunRow) (o : Option TaskRunRow)
    → (p r ≡ true → RunStep r (f r))
    → o ≡ some (if p r then f r else r)
    → KeptRun r o
KeptRun-step p f r o step e = elim (Bool-cases (p r)) [
  | inl hit ↦ (f r, rw hit at e, (step hit).advances, λ h. absurd (ground (arith, (step hit).live)))
  | inr miss ↦ KeptRun-same r o (rw miss at e)
]

KeptRun-trans :
    (r : TaskRunRow) {o o' : Option TaskRunRow}
    → KeptRun r o
    → ((m : TaskRunRow) → o ≡ some m → KeptRun m o')
    → KeptRun r o'
KeptRun-trans r (m, e, a, final) rest =
    let (r', e', a', final') = rest m e in
    (r', e', ground arith, λ h. final' (rw (final h) h) ∙ final h)

-- A key that a new row is checked against is not that of a stored row.
pub first-fresh :
    (k k' : String) (rs : List TaskRunRow) {r : TaskRunRow}
    → first (λ x. x.run_id == k) rs ≡ some r
    → exists (λ x. x.run_id == k') rs ≡ false
    → (k' == k) ≡ false
first-fresh k k' rs h fresh = elim (Bool-cases (k' == k)) [
  | inl eq ↦
      let e : k' ≡ k = (eq_iff k' k).0 eq in
      absurd (cc (exists_first (λ (x : TaskRunRow). x.run_id == k) rs h, rw e at fresh))
  | inr ne ↦ ne
]

Effect-get :
    {s t : TaskStore} {r : TaskRunRow} (k : String)
    → Effect s t
    → get k s ≡ some r
    → KeptRun r (get k t)
unfolding get
Effect-get {r = r} k (same s) h = KeptRun-same r _ h
Effect-get {r = r} k (set_runs s p f step) h =
    KeptRun-step p f r _ (step r)
      (first-update_hit _ p f s.runs (λ x hit. rw ((step x hit).advances.run_id)) h)
Effect-get {r = r} k (set_steps s p f step) h = KeptRun-same r _ h
Effect-get {r = r} k (add_run s x v fresh free) h =
    KeptRun-same r _ (unfold first in rw (first-fresh k x.run_id s.runs h fresh) h)
Effect-get {r = r} k (add_step s t g v up fresh) h = KeptRun-same r _ h
Effect-get {r = r} k (seq a b) h = KeptRun-trans r (Effect-get k a h) (λ m e. Effect-get k b e)

KeptStep-same : (t : TaskStepRow) (o : Option TaskStepRow) → o ≡ some t → KeptStep t o
KeptStep-same t o e = (t, e, ground arith, λ h. refl)

KeptStep-step :
    (p : TaskStepRow → Bool) (f : TaskStepRow → TaskStepRow) (t : TaskStepRow)
    (o : Option TaskStepRow)
    → (p t ≡ true → StepStep t (f t))
    → o ≡ some (if p t then f t else t)
    → KeptStep t o
KeptStep-step p f t o step e = elim (Bool-cases (p t)) [
  | inl hit ↦
      (f t, rw hit at e, (step hit).advances, λ h. absurd (ground (arith, (step hit).open_step)))
  | inr miss ↦ KeptStep-same t o (rw miss at e)
]

KeptStep-trans :
    (t : TaskStepRow) {o o' : Option TaskStepRow}
    → KeptStep t o
    → ((m : TaskStepRow) → o ≡ some m → KeptStep m o')
    → KeptStep t o'
KeptStep-trans t (m, e, a, final) rest =
    let (t', e', a', final') = rest m e in
    (t', e', ground arith, λ h. final' (rw (final h) h) ∙ final h)

is_step-fresh :
    (k n k' n' : String) (ts : List TaskStepRow) {t : TaskStepRow}
    → first (is_step k n) ts ≡ some t
    → exists (is_step k' n') ts ≡ false
    → (k' == k && n' == n) ≡ false
is_step-fresh k n k' n' ts h fresh = elim (Bool-cases (k' == k && n' == n)) [
  | inl eq ↦
      let e : k' ≡ k = ground (arith, eq_iff k' k) in
      let e' : n' ≡ n = ground (arith, eq_iff n' n) in
      absurd (cc (exists_first (is_step k n) ts h, rw (e, e') at fresh))
  | inr ne ↦ ne
]

Effect-get_step :
    {s u : TaskStore} {t : TaskStepRow} (k n : String)
    → Effect s u
    → get_step k n s ≡ some t
    → KeptStep t (get_step k n u)
unfolding get_step
Effect-get_step {t = t} k n (same s) h = KeptStep-same t _ h
Effect-get_step {t = t} k n (set_runs s p f step) h = KeptStep-same t _ h
Effect-get_step {t = t} k n (set_steps s p f step) h = KeptStep-step p f t _ (step t) (
    first-update_hit _ p f s.steps
      (λ x hit. rw ((step x hit).advances.run_id, (step x hit).advances.step_name)) h)
Effect-get_step {t = t} k n (add_run s x v fresh free) h = KeptStep-same t _ h
Effect-get_step {t = t} k n (add_step s x g v up fresh) h =
    KeptStep-same t _
      (unfold first in rw (is_step-fresh k n x.run_id x.step_name s.steps h fresh) h)
Effect-get_step {t = t} k n (seq a b) h =
    KeptStep-trans t (Effect-get_step k n a h) (λ m e. Effect-get_step k n b e)

module _ (ops : List Op) (keeping : AllKeeping ops) (s : TaskStore) where
  -- Operations that delete nothing leave a settled run exactly as it is: its outcome is final.
  pub terminal_run-run :
      (k : String) (r : TaskRunRow)
      → get k s ≡ some r
      → is_terminal r.state ≡ true
      → get k (run ops s) ≡ some r
  terminal_run-run k r h terminal =
      let (r', e, _, final) = Effect-get k (run-Effect ops s keeping) h in
      e ∙ ap some (final terminal)

  -- Operations that delete nothing leave a stored run stored: its id, definition, input, metadata,
  -- idempotency key, retention and creation time stay, its attempts do not decrease, and its state
  -- does not go back from settled to live or from started to pending.
  pub stored_run-run :
      (k : String) (r : TaskRunRow)
      → get k s ≡ some r
      → (r' : TaskRunRow) × (get k (run ops s) ≡ some r') × Advances r r'
  stored_run-run k r h = let (r', e, a, _) = Effect-get k (run-Effect ops s keeping) h in (r', e, a)

  -- Operations that delete nothing leave a completed or failed step exactly as it is: the result
  -- that a replay of the task reads is the one that was first recorded.
  pub settled_step-run :
      (k n : String) (t : TaskStepRow)
      → get_step k n s ≡ some t
      → is_open t ≡ false
      → get_step k n (run ops s) ≡ some t
  settled_step-run k n t h settled =
      let (t', e, _, final) = Effect-get_step k n (run-Effect ops s keeping) h in
      e ∙ ap some (final settled)
