-- ===== src/TaskStore/Runs.antt =====
-- The statements of agents/_task_store.py on one run: creation, claims, cancellation, settlement.
use agents_python_cloudflare.Prelude.{
  ℕ, ◌+◌, String, Bool, true, false, ◌&&◌, ◌||◌, not, Option, none, some, List, ◌∷◌, ◌==◌, eqb,
  is_none, is_some, holds, at_most, coalesce, if◌then◌else◌,
}
use agents_python_cloudflare.Sql.{update, exists, first}
use agents_python_cloudflare.TaskStore.Rows.{
  RunState, WaitReason, memory, TaskRunRow, TaskStore, is_running, is_live, is_claimed, is_fenced,
  update_runs,
}

unfoldable pub get : String → TaskStore → Option TaskRunRow
get run_id s = first (λ r. r.run_id == run_id) s.runs

unfoldable pub get_by_idempotency_key : String → TaskStore → Option TaskRunRow
get_by_idempotency_key key s = first (λ r. holds r.idempotency_key key) s.runs

-- A UNIQUE column takes any number of NULLs.
abbrev pub taken_key : Option String → List TaskRunRow → Bool
taken_key none rs = false
taken_key (some key) rs = exists (λ r. holds r.idempotency_key key) rs

abbrev pub pending_row :
    String → String → Option String → Option String → Option String → Bool → ℕ → TaskRunRow
pending_row run_id definition input_json metadata_json idempotency_key retain created_at = record {
  run_id = run_id;
  definition = definition;
  input = input_json;
  state = RunState.pending;
  result = none;
  error_name = none;
  error_message = none;
  status_message = none;
  metadata = metadata_json;
  idempotency_key = idempotency_key;
  retain = if retain then 1 else 0;
  attempt = 0;
  generation = none;
  next_at = some created_at;
  wait_reason = none;
  cancel_requested = 0;
  cancel_reason = none;
  created_at = created_at;
  started_at = none;
  updated_at = created_at;
  settled_at = none;
}

-- `none` is the error that SQLite raises where the primary key or the idempotency key is taken.
unfoldable pub insert_pending :
    String
    → String
    → Option String
    → Option String
    → Option String
    → Bool
    → ℕ
    → TaskStore
    → Option TaskStore
insert_pending run_id definition input_json metadata_json idempotency_key retain created_at s =
    if exists (λ r. r.run_id == run_id) s.runs || taken_key idempotency_key s.runs
    then none
    else some (record s {
      runs =
          pending_row run_id definition input_json metadata_json idempotency_key retain created_at
          ∷ s.runs;
    })

abbrev pub is_memory : Option WaitReason → Bool
is_memory (some memory) = true
is_memory _ = false

-- Two UPDATEs, one after the other.
unfoldable pub reconcile_deadlines : ℕ → TaskStore → TaskStore
reconcile_deadlines current_time s =
    let overdue : TaskRunRow → TaskRunRow =
      λ r. record r { next_at = some current_time; updated_at = current_time } in
    let claimed =
      update
        (λ (r : TaskRunRow).
          is_running r.state && (is_some r.generation || not (is_memory r.wait_reason)))
        overdue s.runs in
    record s {
      runs =
          update (λ r. (is_live r.state && not (is_running r.state)) && is_none r.next_at) overdue
            claimed;
    }

unfoldable pub authoritative_deadline : String → TaskStore → Option ℕ
authoritative_deadline run_id s = elim (first (λ r. r.run_id == run_id && is_live r.state) s.runs) [
  | none ↦ none
  | some r ↦ r.next_at
]

abbrev pub is_claimable : String → ℕ → TaskRunRow → Bool
is_claimable run_id claimed_at r =
    r.run_id == run_id
    && (is_live r.state
        && (eqb r.cancel_requested 0 && (is_none r.next_at || at_most r.next_at claimed_at)))

abbrev pub claimed_row : String → ℕ → ℕ → TaskRunRow → TaskRunRow
claimed_row generation claimed_at claim_deadline r = record r {
  state = RunState.running;
  attempt = r.attempt + 1;
  generation = some generation;
  started_at = some (coalesce r.started_at claimed_at);
  next_at = some claim_deadline;
  wait_reason = none;
  updated_at = claimed_at;
}

unfoldable pub claim_run : String → String → ℕ → ℕ → TaskStore → Option TaskRunRow × TaskStore
unfolding get
claim_run run_id generation claimed_at claim_deadline s =
    let (changed, s') =
      update_runs (is_claimable run_id claimed_at)
        (claimed_row generation claimed_at claim_deadline) s in
    ((if changed then get run_id s' else none), s')

unfoldable pub refresh_claim : String → String → ℕ → ℕ → TaskStore → Bool × TaskStore
refresh_claim run_id generation next_at updated_at =
    update_runs (is_fenced run_id generation)
      (λ r. record r { next_at = some next_at; updated_at = updated_at })

unfoldable pub extend_active_claim : String → String → ℕ → ℕ → TaskStore → Bool × TaskStore
extend_active_claim run_id generation next_at updated_at =
    update_runs (is_claimed run_id generation)
      (λ r. record r { next_at = some next_at; updated_at = updated_at })

unfoldable pub update_status : String → String → String → ℕ → TaskStore → Bool × TaskStore
update_status run_id generation message updated_at =
    update_runs (is_fenced run_id generation)
      (λ r. record r { status_message = some message; updated_at = updated_at })

unfoldable pub settle_completed : String → String → Option String → ℕ → TaskStore → Bool × TaskStore
settle_completed run_id generation result settled_at =
    update_runs (is_fenced run_id generation) (λ r. record r {
      state = RunState.completed;
      result = result;
      generation = none;
      next_at = none;
      settled_at = some settled_at;
      updated_at = settled_at;
    })

abbrev pub failed_row : String → String → ℕ → TaskRunRow → TaskRunRow
failed_row error_name error_message settled_at r = record r {
  state = RunState.failed;
  error_name = some error_name;
  error_message = some error_message;
  generation = none;
  next_at = none;
  settled_at = some settled_at;
  updated_at = settled_at;
}

unfoldable pub settle_failed : String → String → String → String → ℕ → TaskStore → Bool × TaskStore
settle_failed run_id generation error_name error_message settled_at =
    update_runs (is_fenced run_id generation) (failed_row error_name error_message settled_at)

unfoldable pub request_cancel : String → String → Option String → ℕ → TaskStore → Bool × TaskStore
request_cancel run_id generation reason requested_at =
    update_runs (is_claimed run_id generation) (λ r. record r {
      cancel_requested = 1;
      cancel_reason = reason;
      next_at = some requested_at;
      updated_at = requested_at;
    })

abbrev pub cancelled_row : Option String → ℕ → TaskRunRow → TaskRunRow
cancelled_row reason settled_at r = record r {
  state = RunState.cancelled;
  cancel_requested = 1;
  cancel_reason = reason;
  generation = none;
  next_at = none;
  settled_at = some settled_at;
  updated_at = settled_at;
}

unfoldable pub settle_cancelled_claim :
    String → String → Option String → ℕ → TaskStore → Bool × TaskStore
settle_cancelled_claim run_id generation reason settled_at =
    update_runs (is_claimed run_id generation) (cancelled_row reason settled_at)

unfoldable pub backoff_memory_claim : String → String → ℕ → ℕ → TaskStore → Bool × TaskStore
backoff_memory_claim run_id generation next_at updated_at =
    update_runs (is_fenced run_id generation) (λ r. record r {
      generation = none;
      next_at = some next_at;
      wait_reason = some memory;
      updated_at = updated_at;
    })

unfoldable pub settle_failed_unclaimed : String → String → String → ℕ → TaskStore → Bool × TaskStore
settle_failed_unclaimed run_id error_name error_message settled_at =
    update_runs
      (λ r.
        r.run_id == run_id
        && (is_live r.state && (is_none r.generation && eqb r.cancel_requested 0)))
      (failed_row error_name error_message settled_at)

unfoldable pub cancel_parked : String → Option String → ℕ → TaskStore → Bool × TaskStore
cancel_parked run_id reason settled_at =
    update_runs (λ r. r.run_id == run_id && (is_live r.state && is_none r.generation))
      (cancelled_row reason settled_at)
