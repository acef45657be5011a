-- ===== src/Jobs/Intents.antt =====
-- What becomes of a job's row after it ran: the outcome is applied to the intent that ran, and to no
-- other.
use agents_python_cloudflare.Prelude.{
  ℕ, ◌≡◌, refl, ◌∙◌, String, Bool, true, false, Option, none, some, arith, ◌==◌, eq_iff, eq_refl,
  Bool-cases, inl, inr,
}
use agents_python_cloudflare.Sql.{exists, first}
use agents_python_cloudflare.Sql.Rows.{update_missing, delete_none}
use agents_python_cloudflare.Sql.Keys.{IsUnique-update, IsUnique, exists_at_key}
use agents_python_cloudflare.Jobs.Rows.{
  PushOptions, JobRow, Outcome, finished, yield, reschedule_at, invalid, returned, Wire, IsFaithful,
}
use agents_python_cloudflare.Jobs.Validation.{validate_time}
use agents_python_cloudflare.Jobs.Queue.{Table, retimed, new_row, push, upsert}
use agents_python_cloudflare.Jobs.Execution.{is_text, is_number, intent_guard, idle, apply_outcome}
use agents_python_cloudflare.Jobs.Pushing.{push_rows}

pub stale_outcome :
    (row : JobRow) (o : Outcome) (t : Table)
    → exists (intent_guard row true) t ≡ false
    → (apply_outcome row o t).1 ≡ t
unfolding apply_outcome
stale_outcome row finished t h = delete_none _ t h
stale_outcome row yield t h = update_missing _ idle t h
stale_outcome row (reschedule_at n) t h = go (validate_time n) refl
  where
    go : (d : Option ℕ) → validate_time n ≡ d → (apply_outcome row (reschedule_at n) t).1 ≡ t
    go none e = rw (e, apply_outcome) refl
    go (some due) e = rw (e, apply_outcome) (update_missing _ (retimed due) t h)
stale_outcome row invalid t h = refl

intent-id : (row r : JobRow) (b : Bool) → intent_guard row b r ≡ true → (r.id == row.id) ≡ true
unfolding intent_guard
intent-id row r b h = ground arith

-- A row that is not running, or whose id or intent is another, fails the guard.
idle_fails : (row r : JobRow) → r.running ≡ 0 → intent_guard row true r ≡ false
unfolding intent_guard
idle_fails row r h = ground arith

is_text_refl : (a : Option String) → is_text a a ≡ true
is_text_refl none = refl
is_text_refl (some a) = eq_refl a

is_number_refl : (a : Option ℕ) → is_number a a ≡ true
is_number_refl none = refl
is_number_refl (some a) = ground arith

pub own_intent : (row : JobRow) → row.running ≡ 1 → intent_guard row true row ≡ true
unfolding intent_guard
own_intent row h = ground (
  arith,
  eq_refl row.id,
  eq_refl row.capability,
  eq_refl row.fn,
  is_text_refl row.payload,
  is_text_refl row.retry_options,
  is_number_refl row.hung_timeout_seconds,
  is_number_refl row.execution_started_at,
)

upsert-IsUnique :
    (new : JobRow) (t : Table)
    → IsUnique (λ (r : JobRow). r.id == new.id) t
    → IsUnique (λ (r : JobRow). r.id == new.id) (upsert new t)
unfolding upsert
upsert-IsUnique new t u = elim (Bool-cases (exists (λ (r : JobRow). r.id == new.id) t)) [
  | inl taken ↦ rw taken (IsUnique-update _ _ _ t (λ r. refl) u)
  | inr free ↦ rw free (λ h. free, u)
]

-- A push over a running job takes it back from the run: the outcome of that run, whatever it is,
-- changes nothing afterwards.
pub repush-outcome :
    {J : Type 0} (w : Wire J) (validate : Bool) (generated : String) (now : ℕ) (c : String)
    (o : PushOptions J) (new row : JobRow) (t : Table) (outcome : Outcome)
    → IsFaithful w o
    → new_row w validate generated now c o ≡ returned new
    → IsUnique (λ (r : JobRow). r.id == new.id) t
    → ((r : JobRow) → first (λ (x : JobRow). x.id == new.id) t ≡ some r → r.capability ≡ c)
    → row.id ≡ new.id
    → (apply_outcome row outcome (push w validate generated now c o t).1).1
      ≡ (push w validate generated now c o t).1
repush-outcome w validate generated now c o new row t outcome faithful accepted unique mine same =
    let (created_at, r, did) =
      push_rows w validate generated now c o faithful new accepted t unique mine in
    rw did.0 (
      stale_outcome row outcome (upsert new t) (
        exists_at_key (intent_guard row true) _ (upsert new t) on_id (upsert-IsUnique new t unique)
        ∙ rw did.1 (idle_fails row r did.2)))
  where
    on_id : (r : JobRow) → intent_guard row true r ≡ true → (r.id == new.id) ≡ true
    on_id r h = ground (arith, intent-id row r true h, eq_iff r.id row.id, eq_iff r.id new.id)
