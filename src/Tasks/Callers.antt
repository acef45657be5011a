-- ===== src/Tasks/Callers.antt =====
-- What callers ask of runs (agents/tasks.py): `run` accepts or joins one, `cancel` cancels one, and
-- `get` takes a snapshot. Values are their JSON text; `is_valid` says what the serializers accept.
use agents_python_cloudflare.Prelude.{
  ℕ, String, Bool, true, false, ◌||◌, not, Option, none, some, ◌==◌, holds, coalesce, if◌then◌else◌,
}
use agents_python_cloudflare.TaskStore.Rows.{
  RunState, WaitReason, sleep, TaskRunRow, TaskStore, is_terminal,
}
use agents_python_cloudflare.TaskStore.Runs.{
  get, get_by_idempotency_key, insert_pending, request_cancel, settle_cancelled_claim,
  cancel_parked,
}
use agents_python_cloudflare.TaskStore.Removal.{delete_unaccepted}

pub record TaskReceipt : Type 0 where
  pub run_id : String
  pub definition : String
  pub accepted : Bool
  pub state : RunState
  pub created_at : ℕ

-- What a call of `_accept` asks for, its input and metadata serialized.
pub record Request : Type 0 where
  pub definition : String
  pub input_json : Option String
  pub run_id : Option String
  pub idempotency_key : Option String
  pub metadata_json : Option String
  pub retain : Bool

pub data Accepted : Type 0 where
  receives : TaskReceipt → Accepted
  invalid_identifier wrong_definition conflicting_key storage_error : Accepted

abbrev pub is_identifier : Option String → Bool
is_identifier none = true
is_identifier (some text) = not (text == "")

abbrev pub conflicts : Option String → TaskRunRow → Bool
conflicts none r = false
conflicts (some key) r = not (holds r.idempotency_key key)

unfoldable pub joined_receipt : TaskRunRow → String → Option String → Accepted
joined_receipt r definition idempotency_key =
    if not (r.definition == definition)
    then wrong_definition
    else if conflicts idempotency_key r
    then conflicting_key
    else receives (record {
      run_id = r.run_id;
      definition = r.definition;
      accepted = false;
      state = r.state;
      created_at = r.created_at;
    })

abbrev pub by_run_id : Option String → TaskStore → Option TaskRunRow
by_run_id none s = none
by_run_id (some run_id) s = get run_id s

abbrev pub by_key : Option String → TaskStore → Option TaskRunRow
by_key none s = none
by_key (some key) s = get_by_idempotency_key key s

abbrev pub or_else : Option TaskRunRow → Option TaskRunRow → Option TaskRunRow
or_else none other = other
or_else (some r) other = some r

-- The run that a call joins, if there is one.
unfoldable pub existing_run : Request → TaskStore → Option TaskRunRow
existing_run request s = or_else (by_run_id request.run_id s) (by_key request.idempotency_key s)

abbrev pub inserted : String → ℕ → Request → TaskStore → Option TaskStore → Accepted × TaskStore
inserted accepted_id created_at request s none = (storage_error, s)
inserted accepted_id created_at request s (some s') = (
  receives (record {
    run_id = accepted_id;
    definition = request.definition;
    accepted = true;
    state = RunState.pending;
    created_at = created_at;
  }),
  s',
)

-- `_accept`, but for the wake-up that it asks for after the insertion; `generated` is the id of a run
-- that is given none.
unfoldable pub accept : String → ℕ → Request → TaskStore → Accepted × TaskStore
unfolding existing_run joined_receipt
accept generated created_at request s =
    if not (is_identifier request.run_id) || not (is_identifier request.idempotency_key)
    then (invalid_identifier, s)
    else elim (existing_run request s) [
      | some r ↦ (joined_receipt r request.definition request.idempotency_key, s)
      | none ↦
          let accepted_id : String = coalesce request.run_id generated in
          inserted accepted_id created_at request s (
            insert_pending accepted_id request.definition request.input_json request.metadata_json
              request.idempotency_key request.retain created_at s)
    ]

-- The wake-up's identifier is taken by another job: the run is taken back.
unfoldable pub collide : String → TaskStore → TaskStore
collide accepted_id s = (delete_unaccepted accepted_id s).1

-- What `cancel` comes to; `aborts` tells the running attempt, and `announces` sends the event.
pub data Cancel : Type 0 where
  not_cancelled aborts announces : Cancel

abbrev pub cancel_or : Cancel → Bool × TaskStore → Cancel × TaskStore
cancel_or done (true, s) = (done, s)
cancel_or done (false, s) = (not_cancelled, s)

abbrev pub is_active : Option String → String → Bool
is_active none generation = false
is_active (some active) generation = active == generation

-- `active` is the generation of the attempt that runs in this process.
unfoldable pub cancel : String → Option String → Option String → ℕ → TaskStore → Cancel × TaskStore
cancel run_id reason active now s = elim (get run_id s) [
  | none ↦ (not_cancelled, s)
  | some r ↦ if is_terminal r.state then (not_cancelled, s) else elim r.generation [
    | none ↦ cancel_or announces (cancel_parked run_id reason now s)
    | some generation ↦
        if is_active active generation
        then cancel_or aborts (request_cancel run_id generation reason now s)
        else cancel_or announces (settle_cancelled_claim run_id generation reason now s)
  ]
]

-- The snapshot types of agents/tasks.py: what each has of its own, and what they all have.
pub data Details : Type 0 where
  pending_run : ℕ → Details
  running_run : ℕ → ℕ → ℕ → Option String → Details
  waiting_run : WaitReason → ℕ → ℕ → Option String → Details
  completed_run : Option String → ℕ → ℕ → Details
  failed_run : String → String → ℕ → ℕ → Details
  cancelled_run : ℕ → ℕ → Option String → Details

pub record TaskRunSnapshot : Type 0 where
  pub run_id : String
  pub definition : String
  pub details : Details
  pub metadata : Option String

unfoldable pub details_of : RunState → TaskRunRow → Details
details_of RunState.pending r = pending_run r.created_at
details_of RunState.running r =
    running_run r.attempt (coalesce r.started_at r.created_at) r.created_at r.status_message
details_of RunState.waiting r =
    waiting_run (coalesce r.wait_reason sleep) (coalesce r.next_at r.updated_at) r.created_at
      r.status_message
details_of RunState.completed r =
    completed_run r.result r.created_at (coalesce r.settled_at r.updated_at)
details_of RunState.failed r =
    failed_run (coalesce r.error_name "Error") (coalesce r.error_message "Task run failed")
      r.created_at (coalesce r.settled_at r.updated_at)
details_of RunState.cancelled r =
    cancelled_run r.created_at (coalesce r.settled_at r.updated_at) r.cancel_reason

unfoldable pub snapshot : TaskRunRow → TaskRunSnapshot
unfolding details_of
snapshot r = record {
  run_id = r.run_id;
  definition = r.definition;
  details = details_of r.state r;
  metadata = r.metadata;
}
