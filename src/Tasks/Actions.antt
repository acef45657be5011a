-- ===== src/Tasks/Actions.antt =====
-- What the tasks facade writes as a sequence of the store's operations, so that what those keep is
-- kept.
use agents_python_cloudflare.Prelude.{
  ◌≡◌, refl, Bool, true, false, Option, none, some, List, [], ◌∷◌, if◌then◌else◌,
}
use agents_python_cloudflare.TaskStore.Rows.{TaskStore}
use agents_python_cloudflare.TaskStore.Invariant.{IsValid, run-IsValid}
use agents_python_cloudflare.TaskStore.Trace.{Op, run, apply}

-- One store comes from another by operations.
pub record ByOps (s s' : TaskStore) : Type 0 where
  pub ops : List Op
  pub reaches : s' ≡ run ops s

pub ByOps-same : (s : TaskStore) → ByOps s s
unfolding run
ByOps-same s = record { ops = []; reaches = refl }

pub ByOps-op : (op : Op) (s : TaskStore) → ByOps s (apply op s)
unfolding run
ByOps-op op s = record { ops = op ∷ []; reaches = refl }

pub by_cases {ℓ κ} :
    {A : Type ℓ} {P : Type κ} (o : Option A) → (o ≡ none → P) → ((a : A) → o ≡ some a → P) → P
by_cases none p q = p refl
by_cases (some a) p q = q a refl

-- A call leaves a store that comes by operations from the one it found.
pub record Writes {R : Type 0} (s : TaskStore) (x : R × TaskStore) : Type 0 where
  pub writes : ByOps s x.1

module _ {R : Type 0} {s : TaskStore} where
  pub quiet : (r : R) → Writes s (r, s)
  quiet r = record { writes = ByOps-same s }

  pub by_if :
      (b : Bool) (x y : R × TaskStore) → Writes s x → Writes s y → Writes s (if b then x else y)
  by_if true x y p q = p
  by_if false x y p q = q

pub ByOps-IsValid : {s s' : TaskStore} → ByOps s s' → IsValid s → IsValid s'
ByOps-IsValid {s} by v = rw by.reaches (run-IsValid by.ops s v)
