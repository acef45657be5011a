-- ===== src/Chat/TurnQueue.antt =====
-- The queue of turns (agents/chat/turn_queue.py). The coroutine enqueue is three definitions, split
-- where it waits for the lock and where it runs its function: `enqueue`, `acquire` and `finish`. The
-- lock is held exactly while a context is active; which waiter gets it next is any one, an argument.
pub mod Stale
mod Examples
use agents_python_cloudflare.Prelude.{
  ℕ, ◌+◌, ◌≡◌, String, Bool, true, false, ◌&&◌, ◌||◌, Option, none, some, List, [], ◌∷◌, ◌++◌, eqb,
  if◌then◌else◌,
}

-- `identity` tells the objects apart, which `is` compares.
pub record TurnContext : Type 0 where
  pub identity : ℕ
  pub request_id : String
  pub generation : ℕ

-- A call of enqueue that waits for the lock.
pub record Waiter : Type 0 where
  pub request_id : String
  pub captured : ℕ

pub record TurnQueue : Type 0 where
  pub generation : ℕ
  pub active_context : Option TurnContext
  pub waiting : List Waiter
  pub created : ℕ

-- What a call of enqueue comes to at one of its steps.
pub data Turn : Type 0 where
  reentry_error : Turn
  waits : Turn
  stale : Turn
  started : TurnContext → Turn

unfoldable pub new_queue : TurnQueue
new_queue = record { generation = 0; active_context = none; waiting = []; created = 0 }

abbrev pub is_active : TurnContext → Option TurnContext → Bool
is_active context none = false
is_active context (some active) = eqb active.identity context.identity

unfoldable pub active_request_id : TurnQueue → Option String
active_request_id s = elim s.active_context [ none ↦ none | some context ↦ some context.request_id ]

unfoldable pub is_current : TurnContext → TurnQueue → Bool
is_current context s = is_active context s.active_context && eqb context.generation s.generation

-- whether one of the caller's leases of this queue is the active one
abbrev pub re_enters : List TurnContext → Option TurnContext → Bool
re_enters [] active = false
re_enters (context ∷ leases) active = is_active context active || re_enters leases active

unfoldable pub enqueue : String → List TurnContext → TurnQueue → Turn × TurnQueue
enqueue request_id leases s = if re_enters leases s.active_context then (reentry_error, s) else (
  waits,
  record s {
    waiting = s.waiting ++ (record { request_id = request_id; captured = s.generation } ∷ []);
  },
)

-- the waiter between those before it and those after it gets the lock, when no turn holds it
unfoldable pub acquire : List Waiter → Waiter → List Waiter → TurnQueue → Turn × TurnQueue
acquire before w after s = elim s.active_context [
  | some context ↦ (waits, s)
  | none ↦
      let context : TurnContext = record {
        identity = s.created;
        request_id = w.request_id;
        generation = w.captured;
      } in
      if eqb w.captured s.generation
      then (
        started context,
        record s {
          active_context = some context;
          waiting = before ++ after;
          created = s.created + 1;
        },
      )
      else (stale, record s { waiting = before ++ after })
]

-- the turn's function has returned or raised
unfoldable pub finish : TurnQueue → TurnQueue
finish s = record s { active_context = none }

unfoldable pub reset : TurnQueue → TurnQueue
reset s = record s { generation = s.generation + 1 }
