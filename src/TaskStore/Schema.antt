-- ===== src/TaskStore/Schema.antt =====
-- The check of the tables' columns (schema_is_compatible of agents/_task_store.py). What PRAGMA
-- table_info answers for a table, the names of its columns, is an argument: [] for no table.
use mathlib.Core.Logic.{◌↔◌}
use agents_python_cloudflare.Prelude.{
  ◌≡◌, refl, ◌⊎◌, inl, inr, String, Bool, true, false, ◌&&◌, ◌==◌, if◌then◌else◌, List, [], ◌∷◌,
  eq_iff, arith, Bool-cases, &&_left, &&_right, eq_refl,
}

unfoldable pub run_column_names : List String
run_column_names =
    "run_id" ∷ "definition" ∷ "input" ∷ "state" ∷ "result" ∷ "error_name" ∷ "error_message"
    ∷ "status_message" ∷ "metadata" ∷ "idempotency_key" ∷ "retain" ∷ "attempt" ∷ "generation"
    ∷ "next_at" ∷ "wait_reason" ∷ "cancel_requested" ∷ "cancel_reason" ∷ "created_at" ∷ "started_at"
    ∷ "updated_at" ∷ "settled_at" ∷ []

unfoldable pub step_column_names : List String
step_column_names =
    "run_id" ∷ "step_name" ∷ "kind" ∷ "state" ∷ "result" ∷ "error_name" ∷ "error_message"
    ∷ "attempt" ∷ "next_at" ∷ "created_at" ∷ "started_at" ∷ "updated_at" ∷ "completed_at" ∷ []

-- tuples of names compared with ==
abbrev same_names : List String → List String → Bool
same_names [] [] = true
same_names [] (y ∷ ys) = false
same_names (x ∷ xs) [] = false
same_names (x ∷ xs) (y ∷ ys) = (x == y) && same_names xs ys

-- a table that does not exist yet, or one with the expected columns
abbrev is_compatible : List String → List String → Bool
is_compatible [] expected = true
is_compatible (c ∷ cs) expected = same_names (c ∷ cs) expected

unfoldable pub schema_is_compatible : (String → List String) → Bool
schema_is_compatible columns =
    if is_compatible (columns "cf_agents_task_runs") run_column_names
    then is_compatible (columns "cf_agents_task_steps") step_column_names
    else false

same_names-equal : (xs ys : List String) → same_names xs ys ≡ true → xs ≡ ys
same_names-equal [] [] h = refl
same_names-equal [] (y ∷ ys) h = cc
same_names-equal (x ∷ xs) [] h = cc
same_names-equal (x ∷ xs) (y ∷ ys) h =
    let head : x ≡ y = ground (arith, eq_iff x y, &&_left (x == y) (same_names xs ys) h) in
    let tail = same_names-equal xs ys (&&_right (x == y) (same_names xs ys) h) in cc

same_names_refl : (xs : List String) → same_names xs xs ≡ true
same_names_refl [] = refl
same_names_refl (x ∷ xs) = rw (eq_refl x, same_names_refl xs) refl

is_compatible_sound :
    (cs expected : List String) → is_compatible cs expected ≡ true → (cs ≡ []) ⊎ (cs ≡ expected)
is_compatible_sound [] expected h = inl refl
is_compatible_sound (c ∷ cs) expected h = inr (same_names-equal (c ∷ cs) expected h)

is_compatible_complete :
    (cs expected : List String) → (cs ≡ []) ⊎ (cs ≡ expected) → is_compatible cs expected ≡ true
is_compatible_complete [] expected h = refl
is_compatible_complete (c ∷ cs) expected (inl e) = cc
is_compatible_complete (c ∷ cs) expected (inr e) = rw⁻¹ e (same_names_refl (c ∷ cs))

-- A table is absent or has the expected columns.
pub IsExpected : List String → List String → Type 0
IsExpected cs expected = (cs ≡ []) ⊎ (cs ≡ expected)

-- The schema is compatible exactly when each of the two tables is absent or has the expected
-- columns, in their order.
pub schema_is_compatible_correct :
    (columns : String → List String)
    → (schema_is_compatible columns ≡ true) ↔ (
        IsExpected (columns "cf_agents_task_runs") run_column_names
        × IsExpected (columns "cf_agents_task_steps") step_column_names)
unfolding schema_is_compatible IsExpected
schema_is_compatible_correct columns = (
  (λ h. elim (Bool-cases (is_compatible (columns "cf_agents_task_runs") run_column_names)) [
    | inl e ↦ (is_compatible_sound _ _ e, is_compatible_sound _ _ (rw e at h))
    | inr e ↦ absurd (cc)
  ]),
  (λ h. rw (is_compatible_complete _ _ h.0) (is_compatible_complete _ _ h.1)),
)
