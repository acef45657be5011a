-- ===== src/Tasks/Finishing.antt =====
-- The end of an attempt that has kept its claim.
use agents_python_cloudflare.Prelude.{ℕ, ◌≡◌, sym, String, Bool, true, false, none, some}
use agents_python_cloudflare.TaskStore.Rows.{RunState, TaskRunRow, TaskStore}
use agents_python_cloudflare.TaskStore.Runs.{get}
use agents_python_cloudflare.TaskStore.Invariant.{IsValid}
use agents_python_cloudflare.Tasks.Attempt.{Settled, announces, leaves, AttemptEnd, settled}

-- How a run looks when it has settled at a time, without its outcome.
abbrev pub IsSettled : TaskRunRow → RunState → ℕ → TaskRunRow → Type 0
IsSettled r state at row =
    (row.state ≡ state)
    × (row.generation ≡ none)
    × (row.next_at ≡ none)
    × (row.settled_at ≡ some at)
    × (row.attempt ≡ r.attempt)

-- What the end of the definition makes of the claimed run, if anything.
abbrev pub IsOutcome : TaskRunRow → AttemptEnd → ℕ → TaskRunRow → Type 0
IsOutcome r (AttemptEnd.returned result) at row =
    IsSettled r RunState.completed at row × (row.result ≡ result)
IsOutcome r (AttemptEnd.failed error_name error_message) at row =
    IsSettled r RunState.failed at row
    × (row.error_name ≡ some error_name)
    × (row.error_message ≡ some error_message)
IsOutcome r (AttemptEnd.cancelled reason) at row =
    IsSettled r RunState.cancelled at row × (row.cancel_reason ≡ reason)
IsOutcome r _ at row = row ≡ r

abbrev pub tells : AttemptEnd → Settled
tells (AttemptEnd.returned result) = announces
tells (AttemptEnd.failed error_name error_message) = announces
tells (AttemptEnd.cancelled reason) = announces
tells _ = leaves

-- What `finish_attempt` says of the run and leaves of it.
abbrev pub Finishes : String → TaskRunRow → AttemptEnd → ℕ → Settled × TaskStore → Type 0
Finishes k r end at x =
    (x.0 ≡ tells end) × ((row : TaskRunRow) × (get k x.1 ≡ some row) × IsOutcome r end at row)

module _ (k g : String) (at : ℕ) (r : TaskRunRow) (s : TaskStore) (valid : IsValid s)
    (stored : get k s ≡ some r) (held : r.generation ≡ some g) (quiet : r.cancel_requested ≡ 0)
    (running : r.state ≡ RunState.running) where
  by_settled :
      (end : AttemptEnd) (x : Bool × TaskStore) (row : TaskRunRow)
      → tells end ≡ announces
      → (x.0 ≡ true) × (get k x.1 ≡ some row)
      → IsOutcome r end at row
      → Finishes k r end at (settled x)
  by_settled end (true, s') row e h out = (sym e, (row, h.1, out))
  by_settled end (false, s') row e h out = absurd (cc)
