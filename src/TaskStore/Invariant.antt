-- ===== src/TaskStore/Invariant.antt =====
-- The invariant of the two tables, which every operation keeps.
use agents_python_cloudflare.Prelude.{
  Bool-cases, inl, inr, ◌≡◌, refl, ap, String, Bool, true, false, ◌&&◌, Option, none, some, List,
  [], ◌∷◌, arith, ◌==◌, eq_iff, ltb, holds, All, All-weaken,
}
use agents_python_cloudflare.Sql.{delete, exists}
use agents_python_cloudflare.Sql.Rows.{All-update, All-delete, exists-update, exists-delete}
use agents_python_cloudflare.Sql.Keys.{
  exists-cons, IsDistinct, IsDistinct-update, IsDistinct-delete,
}
use agents_python_cloudflare.TaskStore.Rows.{TaskRunRow, TaskStepRow, TaskStore, is_step, is_fenced}
use agents_python_cloudflare.TaskStore.Runs.{taken_key}
use agents_python_cloudflare.TaskStore.RunInvariant.{IsValidRun, IsValidStep}
use agents_python_cloudflare.TaskStore.Trace.{Op, run, empty}
use agents_python_cloudflare.TaskStore.Effect.Relation.{
  Effect, same, set_runs, set_steps, add_run, add_step, seq, Change, effect, drop_new, drop_task,
  next,
}
use agents_python_cloudflare.TaskStore.Effect.Apply.{run-Change}

abbrev pub same_run : TaskRunRow → TaskRunRow → Bool
same_run a b = b.run_id == a.run_id

abbrev pub has_value : Option String → Option String → Bool
has_value none other = false
has_value (some key) other = holds other key

abbrev pub has_key : Option String → TaskRunRow → Bool
has_key key b = has_value key b.idempotency_key

abbrev pub same_key : TaskRunRow → TaskRunRow → Bool
same_key a = has_key a.idempotency_key

abbrev pub same_step : TaskStepRow → TaskStepRow → Bool
same_step a b = is_step a.run_id a.step_name b

-- The run of a step, which has been claimed at least once.
abbrev pub owns : TaskStepRow → TaskRunRow → Bool
owns t r = r.run_id == t.run_id && ltb 0 r.attempt

pub record IsValid (s : TaskStore) : Type 0 where
  pub runs_valid : All IsValidRun s.runs
  pub steps_valid : All IsValidStep s.steps
  pub run_ids : IsDistinct same_run s.runs
  pub idempotency_keys : IsDistinct same_key s.runs
  pub step_keys : IsDistinct same_step s.steps
  -- No step outlives its run.
  pub owned : All (λ t. exists (owns t) s.runs ≡ true) s.steps

-- A fence that holds names a run that has been claimed.
fence-owns :
    (k g : String) (t : TaskStepRow) (rs : List TaskRunRow)
    → t.run_id ≡ k
    → All IsValidRun rs
    → exists (is_fenced k g) rs ≡ true
    → exists (owns t) rs ≡ true
unfolding exists
fence-owns k g t [] e v h = h
fence-owns k g t (r ∷ rs) e v h =
    ground (arith, eq_iff r.run_id k, eq_iff r.run_id t.run_id, fence-owns k g t rs e v.1)

fresh_key :
    (key : Option String) (rs : List TaskRunRow)
    → taken_key key rs ≡ false
    → exists (has_key key) rs ≡ false
unfolding exists
fresh_key none [] h = refl
fresh_key none (r ∷ rs) h = fresh_key none rs refl
fresh_key (some key) rs h = h

Effect-IsValid : {s t : TaskStore} → Effect s t → IsValid s → IsValid t
Effect-IsValid (same s) v = v
Effect-IsValid (set_runs s p f step) v = record {
  runs_valid = All-update IsValidRun p f s.runs (λ r vr hit. (step r hit).valid vr) v.runs_valid;
  steps_valid = v.steps_valid;
  run_ids =
      IsDistinct-update same_run p f s.runs (λ r y hit. rw ((step r hit).advances.run_id))
        (λ x r hit. rw ((step r hit).advances.run_id)) v.run_ids;
  idempotency_keys =
      IsDistinct-update same_key p f s.runs (λ r y hit. rw ((step r hit).advances.idempotency_key))
        (λ x r hit. ap (has_value x.idempotency_key) ((step r hit).advances.idempotency_key))
        v.idempotency_keys;
  step_keys = v.step_keys;
  owned =
      All-weaken _ _ s.steps
        (λ t. exists-update (owns t) p f s.runs (λ r hit o. ground (arith, (step r hit).advances)))
        v.owned;
}
Effect-IsValid (set_steps s p f step) v = record {
  runs_valid = v.runs_valid;
  steps_valid =
      All-update IsValidStep p f s.steps (λ t vt hit. (step t hit).valid vt) v.steps_valid;
  run_ids = v.run_ids;
  idempotency_keys = v.idempotency_keys;
  step_keys =
      IsDistinct-update same_step p f s.steps
        (λ t y hit. rw ((step t hit).advances.run_id, (step t hit).advances.step_name))
        (λ x t hit. rw ((step t hit).advances.run_id, (step t hit).advances.step_name)) v.step_keys;
  owned = All-update _ p f s.steps (λ t o hit. rw ((step t hit).advances.run_id) o) v.owned;
}
Effect-IsValid (add_run s r vr fresh free) v = record {
  runs_valid = (vr, v.runs_valid);
  steps_valid = v.steps_valid;
  run_ids = (fresh, v.run_ids);
  idempotency_keys = (fresh_key r.idempotency_key s.runs free, v.idempotency_keys);
  step_keys = v.step_keys;
  owned = All-weaken _ _ s.steps (λ t o. exists-cons (owns t) r s.runs o) v.owned;
}
Effect-IsValid (add_step s t g vt up fresh) v = record {
  runs_valid = v.runs_valid;
  steps_valid = (vt, v.steps_valid);
  run_ids = v.run_ids;
  idempotency_keys = v.idempotency_keys;
  step_keys = (fresh, v.step_keys);
  owned = (fence-owns t.run_id g t s.runs refl v.runs_valid up, v.owned);
}
Effect-IsValid (seq a b) v = Effect-IsValid b (Effect-IsValid a v)

-- A row of another task keeps its run when one task is deleted.
owned_after_drop :
    (k : String) (p : TaskRunRow → Bool) (rs : List TaskRunRow) (ts : List TaskStepRow)
    → ((r : TaskRunRow) → p r ≡ true → (r.run_id == k) ≡ true)
    → All (λ t. exists (owns t) rs ≡ true) ts
    → All (λ t. exists (owns t) (delete p rs) ≡ true) (delete (λ t. t.run_id == k) ts)
unfolding delete
owned_after_drop k p rs [] only h = tt
owned_after_drop k p rs (t ∷ ts) only h = elim (Bool-cases (t.run_id == k)) [
  | inl gone ↦ rw gone (owned_after_drop k p rs ts only h.1)
  | inr stays ↦
      rw stays
        (rw (exists-delete (owns t) p rs (other stays)) h.0, owned_after_drop k p rs ts only h.1)
]
  where
    other : (t.run_id == k) ≡ false → (r : TaskRunRow) → owns t r ≡ true → p r ≡ false
    other stays r o = elim (Bool-cases (p r)) [
      | inl hit ↦ absurd (
          ground
            (arith, only r hit, eq_iff r.run_id k, eq_iff r.run_id t.run_id, eq_iff t.run_id k))
      | inr miss ↦ miss
    ]

Change-IsValid : {s t : TaskStore} → Change s t → IsValid s → IsValid t
Change-IsValid (effect e) v = Effect-IsValid e v
Change-IsValid (drop_new s p unstarted) v = record {
  runs_valid = All-delete IsValidRun p s.runs v.runs_valid;
  steps_valid = v.steps_valid;
  run_ids = IsDistinct-delete same_run p s.runs v.run_ids;
  idempotency_keys = IsDistinct-delete same_key p s.runs v.idempotency_keys;
  step_keys = v.step_keys;
  owned =
      All-weaken _ _ s.steps
        (λ t o. rw (exists-delete (owns t) p s.runs (λ r own. ground (arith, unstarted r))) o)
        v.owned;
}
Change-IsValid (drop_task s k p only) v = record {
  runs_valid = All-delete IsValidRun p s.runs v.runs_valid;
  steps_valid = All-delete IsValidStep _ s.steps v.steps_valid;
  run_ids = IsDistinct-delete same_run p s.runs v.run_ids;
  idempotency_keys = IsDistinct-delete same_key p s.runs v.idempotency_keys;
  step_keys = IsDistinct-delete same_step _ s.steps v.step_keys;
  owned = owned_after_drop k p s.runs s.steps only v.owned;
}
Change-IsValid (next a b) v = Change-IsValid b (Change-IsValid a v)

IsValid-empty : IsValid empty
IsValid-empty = record {
  runs_valid = tt;
  steps_valid = tt;
  run_ids = tt;
  idempotency_keys = tt;
  step_keys = tt;
  owned = tt;
}

pub run-IsValid : (ops : List Op) (s : TaskStore) → IsValid s → IsValid (run ops s)
run-IsValid ops s v = Change-IsValid (run-Change ops s) v

-- Whatever operations are made on empty tables, in whatever order and with whatever arguments,
-- every run and every step is valid, run ids, idempotency keys and step names are unique, and each
-- step belongs to a run that is still stored and has been claimed at least once.
pub reachable-IsValid : (ops : List Op) → IsValid (run ops empty)
reachable-IsValid ops = run-IsValid ops empty IsValid-empty
