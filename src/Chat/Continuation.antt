-- ===== src/Chat/Continuation.antt =====
-- The controller of automatic continuations (agents/chat/continuation.py). The coroutine
-- fire_when_stable is two definitions, split at its await: `fire_when_stable` and `drained`. What
-- its callbacks answer is an argument, and the calls it makes are results.
pub mod Trace
mod Examples
pub mod Requests
pub mod Fires
use agents_python_cloudflare.Prelude.{
  String, Bool, true, false, ◌&&◌, ◌||◌, not, Option, none, some, List, [], ◌∷◌, map, ◌==◌, is_some,
  holds, if◌then◌else◌,
}

-- C is a connection, B a request's body and T its list of client tools.
pub record ContinuationRequest (C B T : Type 0) : Type 0 where
  pub connection : C
  pub connection_id : Option String
  pub request_id : String
  pub body : B
  pub client_tools : Option T
  pub past_coalesce : Bool

-- A dict in the order of insertion.
abbrev pub Dict : Type 0 → Type 0
Dict V = List (String × V)

pub record Controller (C B T : Type 0) : Type 0 where
  pub pending : Option (ContinuationRequest C B T)
  pub deferred : Option (ContinuationRequest C B T)
  pub active_request_id : Option String
  pub active_connection_id : Option String
  pub awaiting_connections : Dict (C × Option String)
  pub timer : Bool
  pub barrier_active : Bool

-- What the coroutine does next: it ends, awaits the pending interactions, or fires a request.
pub data Firing (C B T : Type 0) : Type 0 where
  ends : Firing C B T
  drains : Firing C B T
  fires : ContinuationRequest C B T → Firing C B T

module _ {V : Type 0} where
  abbrev pub pop : String → Dict V → Dict V
  pop key [] = []
  pop key (entry ∷ d) = let rest = pop key d in if entry.0 == key then rest else entry ∷ rest

  abbrev pub put : String → V → Dict V → Dict V
  put key value [] = (key, value) ∷ []
  put key value (entry ∷ d) =
      let rest = put key value d in if entry.0 == key then (key, value) ∷ d else entry ∷ rest

module _ {C B T : Type 0} where
  unfoldable pub initial : Controller C B T
  initial = record {
    pending = none;
    deferred = none;
    active_request_id = none;
    active_connection_id = none;
    awaiting_connections = [];
    timer = false;
    barrier_active = false;
  }

  unfoldable pub cancel_timer : Controller C B T → Controller C B T
  cancel_timer s = record s { timer = false }

  unfoldable pub arm : Controller C B T → Controller C B T
  unfolding cancel_timer
  arm s = record (cancel_timer s) { timer = true }

  unfoldable pub rearm : Controller C B T → Controller C B T
  unfolding arm
  rearm s = elim s.pending [ none ↦ s | some r ↦ if not r.past_coalesce then arm s else s ]

  -- whether the timer spawns fire_when_stable
  unfoldable pub on_timer : Controller C B T → Bool × Controller C B T
  on_timer s = (is_some s.pending, record s { timer = false })

  unfoldable pub fire :
      Bool → ContinuationRequest C B T → Controller C B T → Firing C B T × Controller C B T
  unfolding cancel_timer
  fire has_incomplete_tool_batch r s =
      if has_incomplete_tool_batch
      then (ends, s)
      else let fired = record r { past_coalesce = true } in
        (fires fired, record (cancel_timer s) { pending = some fired })

  unfoldable pub fire_when_stable :
      Bool → Bool → Bool → Controller C B T → Firing C B T × Controller C B T
  unfolding fire
  fire_when_stable is_stream_active has_pending_interaction has_incomplete_tool_batch s =
      elim s.pending [
        | none ↦ (ends, s)
        | some r ↦
            if r.past_coalesce || s.barrier_active
            then (ends, s)
            else if is_stream_active
            then (ends, s)
            else if has_pending_interaction
            then (drains, record s { barrier_active = true })
            else fire has_incomplete_tool_batch r s
      ]

  -- the drain has returned; a drain that raises only leaves the barrier
  unfoldable pub drained : Bool → Bool → Controller C B T → Firing C B T × Controller C B T
  unfolding fire
  drained is_stream_active has_incomplete_tool_batch s =
      let s2 = record s { barrier_active = false } in
      elim s.pending [
        | none ↦ (ends, s2)
        | some r ↦
            if r.past_coalesce || is_stream_active
            then (ends, s2)
            else fire has_incomplete_tool_batch r s2
      ]

  unfoldable pub drain_raised : Controller C B T → Controller C B T
  drain_raised s = record s { barrier_active = false }

  unfoldable pub activate : String → Controller C B T → Controller C B T
  activate request_id s = elim s.pending [
    | none ↦ s
    | some r ↦
        if r.request_id == request_id
        then record s {
          active_request_id = some request_id;
          active_connection_id = r.connection_id;
          pending = none;
        }
        else s
  ]

  unfoldable pub deactivate : String → Controller C B T → Controller C B T
  deactivate request_id s =
      if holds s.active_request_id request_id
      then record s { active_request_id = none; active_connection_id = none }
      else s

  -- a promoted request's connection waits for it again, unless it has been released
  abbrev pub await_again :
      ContinuationRequest C B T → Dict (C × Option String) → Dict (C × Option String)
  await_again r d = elim r.connection_id [ none ↦ d | some key ↦ put key (r.connection, none) d ]

  unfoldable pub promote : Controller C B T → Controller C B T
  unfolding rearm
  promote s = elim s.pending [
    | some r ↦ s
    | none ↦ elim s.deferred [
      | none ↦ s
      | some r ↦ rearm (record s {
        pending = some r;
        deferred = none;
        awaiting_connections = await_again r s.awaiting_connections;
      })
    ]
  ]

  unfoldable pub finish : String → Controller C B T → Controller C B T
  unfolding deactivate promote
  finish request_id s = promote (deactivate request_id s)

  abbrev pub drop_id :
      String → Option (ContinuationRequest C B T) → Option (ContinuationRequest C B T)
  drop_id connection_id none = none
  drop_id connection_id (some r) =
      if holds r.connection_id connection_id
      then some (record r { connection_id = none })
      else some r

  unfoldable pub release_connection : String → Controller C B T → Controller C B T
  release_connection connection_id s = record s {
    awaiting_connections = pop connection_id s.awaiting_connections;
    pending = drop_id connection_id s.pending;
    deferred = drop_id connection_id s.deferred;
    active_connection_id =
        if holds s.active_connection_id connection_id then none else s.active_connection_id;
  }

  -- the frames sent: a connection and the probe it is answered for
  unfoldable pub settle_waiters : Controller C B T → List (C × Option String) × Controller C B T
  settle_waiters s =
      (map (λ entry. entry.1) s.awaiting_connections, record s { awaiting_connections = [] })

  unfoldable pub reset : Controller C B T → List (C × Option String) × Controller C B T
  unfolding cancel_timer settle_waiters
  reset s =
      let settled = settle_waiters (record (cancel_timer s) { barrier_active = false }) in
      (
        settled.0,
        record settled.1 {
          pending = none;
          deferred = none;
          active_request_id = none;
          active_connection_id = none;
          awaiting_connections = [];
        },
      )

module _ {C B T : Type 0} (id_of : C → String) where
  abbrev pub new_request : String → C → B → Option T → ContinuationRequest C B T
  new_request request_id connection body client_tools = record {
    connection = connection;
    connection_id = some (id_of connection);
    request_id = request_id;
    body = body;
    client_tools = client_tools;
    past_coalesce = false;
  }

  -- the connection of a deferred request that is replaced no longer waits
  abbrev pub forget_deferred :
      Option (ContinuationRequest C B T) → Dict (C × Option String) → Dict (C × Option String)
  forget_deferred none d = d
  forget_deferred (some r) d = pop (id_of r.connection) d

  -- `generated` is what generate_request_id returns if it is called
  unfoldable pub schedule : String → C → B → Option T → Controller C B T → Controller C B T
  unfolding arm
  schedule generated connection body client_tools s =
      let request = new_request generated connection body client_tools in
      let waiting = put (id_of connection) (connection, none) s.awaiting_connections in
      elim s.pending [
        | none ↦ arm (record s { pending = some request; awaiting_connections = waiting })
        | some r ↦
            if r.past_coalesce
            then record s {
              deferred = some request;
              awaiting_connections =
                  put (id_of connection) (connection, none)
                    (forget_deferred s.deferred s.awaiting_connections);
            }
            else arm (record s {
              pending = some (record r {
                connection = connection;
                connection_id = some (id_of connection);
                body = body;
                client_tools = client_tools;
              });
              awaiting_connections = waiting;
            })
      ]
