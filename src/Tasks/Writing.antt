-- ===== src/Tasks/Writing.antt =====
-- What callers write, they write by operations of the store.
use agents_python_cloudflare.Prelude.{ℕ, ◌||◌, coalesce, String, not, Option, none, some}
use agents_python_cloudflare.TaskStore.Rows.{TaskStore}
use agents_python_cloudflare.TaskStore.Runs
use agents_python_cloudflare.TaskStore.Runs.{get}
use agents_python_cloudflare.TaskStore.Trace.{Op, apply, or_same}
use agents_python_cloudflare.Tasks.Callers.{
  Request, invalid_identifier, storage_error, existing_run, joined_receipt, inserted, accept,
  is_identifier,
}
use agents_python_cloudflare.Tasks.Actions.{ByOps, ByOps-op, Writes, quiet, by_if, by_cases}

inserted-Writes :
    (id : String) (created_at : ℕ) (request : Request) (s : TaskStore)
    → Writes s (
        inserted id created_at request s (
          Runs.insert_pending id request.definition request.input_json request.metadata_json
            request.idempotency_key request.retain created_at s))
inserted-Writes id created_at request s =
    go
      (Runs.insert_pending id request.definition request.input_json request.metadata_json
        request.idempotency_key request.retain created_at s)
      (unfold apply in
        ByOps-op
          (Op.insert_pending id request.definition request.input_json request.metadata_json
            request.idempotency_key request.retain created_at)
          s)
  where
    go :
        (x : Option TaskStore)
        → ByOps s (or_same s x)
        → Writes s (inserted id created_at request s x)
    go none p = quiet storage_error
    go (some s') p = record { writes = p }

pub accept-Writes :
    (generated : String) (created_at : ℕ) (request : Request) (s : TaskStore)
    → Writes s (accept generated created_at request s)
unfolding accept
accept-Writes generated created_at request s =
    by_cases (existing_run request s)
      (λ e.
        rw (e, accept)
          (by_if (not (is_identifier request.run_id) || not (is_identifier request.idempotency_key))
            _ _ (quiet invalid_identifier)
            (inserted-Writes (coalesce request.run_id generated) created_at request s)))
      (λ r e.
        rw (e, accept)
          (by_if (not (is_identifier request.run_id) || not (is_identifier request.idempotency_key))
            _ _ (quiet invalid_identifier)
            (quiet (joined_receipt r request.definition request.idempotency_key))))
