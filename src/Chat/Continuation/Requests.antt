-- ===== src/Chat/Continuation/Requests.antt =====
-- When a continuation is fired, which answers one request stands for, and what a closed connection
-- leaves behind.
use agents_python_cloudflare.Prelude.{
  ◌≡◌, refl, String, Bool, true, false, ◌&&◌, ◌||◌, not, Option, none, some, List, [], ◌∷◌, arith,
  holds, All, ◌==◌, Bool-cases, inl, inr, eq_refl,
}
use agents_python_cloudflare.Chat.Continuation.{
  ContinuationRequest, Controller, Dict, Firing, ends, drains, fires, pop, fire, cancel_timer, arm,
  fire_when_stable, drained, activate, finish, deactivate, promote, rearm, drop_id,
  release_connection, schedule,
}

-- A request that a call fires was pending and not past the window, the call was made when there
-- was no active stream, no incomplete batch, no pending interaction and no barrier, and the request
-- stays pending, marked.
pub record IsStable {C B T : Type 0} (active interaction incomplete : Bool)
    (s after : Controller C B T) (fired : ContinuationRequest C B T) : Type 0 where
  no_stream : active ≡ false
  no_interaction : interaction ≡ false
  no_batch : incomplete ≡ false
  no_barrier : s.barrier_active ≡ false
  waiting :
      (r : ContinuationRequest C B T) × (s.pending ≡ some r)
      × (r.past_coalesce ≡ false)
      × (fired ≡ record r { past_coalesce = true })
  marked : after.pending ≡ some fired
  disarmed : after.timer ≡ false

-- A request that waits for its firing and does not have it.
abbrev Holds : {C B T : Type 0} → Option (ContinuationRequest C B T) → Type 0
Holds none = ⊥
Holds (some r) = r.past_coalesce ≡ false

-- What a result of the coroutine promises: a request is fired only when all is stable, interactions
-- are awaited only under the barrier, and a request that can be fired does not just end the call.
pub FiresWhenStable :
    {C B T : Type 0}
    → Bool
    → Bool
    → Bool
    → Controller C B T
    → Firing C B T × Controller C B T
    → Type 0
FiresWhenStable active interaction incomplete s (ends, after) =
    (after.pending ≡ s.pending)
    × ((active || (s.barrier_active || (incomplete && not interaction))) ≡ false
        → Holds s.pending
        → ⊥)
FiresWhenStable active interaction incomplete s (drains, after) =
    (active ≡ false)
    × (interaction ≡ true)
    × (s.barrier_active ≡ false)
    × Holds s.pending
    × (after ≡ record s { barrier_active = true })
FiresWhenStable active interaction incomplete s (fires r, after) =
    IsStable active interaction incomplete s after r

pop-All :
    {V : Type 0} (id : String) (d : Dict V) → All (λ entry. (entry.0 == id) ≡ false) (pop id d)
pop-All id [] = tt
pop-All id (entry ∷ d) = elim (Bool-cases (entry.0 == id)) [
  | inl e ↦ rw e (pop-All id d)
  | inr e ↦ rw e (e, pop-All id d)
]

module _ {C B T : Type 0} where
  fire_when_stable_first :
      (active interaction incomplete : Bool) (s : Controller C B T)
      → FiresWhenStable active interaction incomplete s
          (fire_when_stable active interaction incomplete s)
  unfolding fire_when_stable fire cancel_timer FiresWhenStable
  fire_when_stable_first active interaction incomplete s =
      go s.pending active interaction incomplete s.barrier_active
    where
      go :
          (o : Option (ContinuationRequest C B T)) (a i c b : Bool)
          → let s = record s { pending = o; barrier_active = b } in
            FiresWhenStable a i c s (fire_when_stable a i c s)
      go none a i c b = (refl, λ stable waits. waits)
      go (some r) a i c b = by_request r r.past_coalesce a i c b
        where
          by_request :
              (r : ContinuationRequest C B T) (p a i c b : Bool)
              → let s = record s {
                pending = some (record r { past_coalesce = p });
                barrier_active = b;
              } in
                FiresWhenStable a i c s (fire_when_stable a i c s)
          by_request r true a i c b = (refl, λ stable waits. absurd (cc))
          by_request r false true i c true = (refl, λ stable waits. absurd (cc))
          by_request r false false i c true = (refl, λ stable waits. absurd (cc))
          by_request r false true i c false = (refl, λ stable waits. absurd (cc))
          by_request r false false true c false = (refl, refl, refl, refl, refl)
          by_request r false false false true false = (refl, λ stable waits. absurd (cc))
          by_request r false false false false false = record {
            no_stream = refl;
            no_interaction = refl;
            no_batch = refl;
            no_barrier = refl;
            waiting = (record r { past_coalesce = false }, refl, refl, refl);
            marked = refl;
            disarmed = refl;
          }

  -- The second half takes the barrier down first, and asks about interactions no more.
  drained_second :
      (active incomplete : Bool) (s : Controller C B T)
      → FiresWhenStable active false incomplete
          (record s { barrier_active = false })
          (drained active incomplete s)
        × ((drained active incomplete s).1.barrier_active ≡ false)
  unfolding drained fire cancel_timer FiresWhenStable
  drained_second active incomplete s = go s.pending active incomplete
    where
      Promised : Option (ContinuationRequest C B T) → Bool → Bool → Type 0
      Promised o a c =
          let s = record s { pending = o } in
          FiresWhenStable a false c (record s { barrier_active = false }) (drained a c s)
          × ((drained a c s).1.barrier_active ≡ false)

      by_request :
          (r : ContinuationRequest C B T) (p a c : Bool)
          → Promised (some (record r { past_coalesce = p })) a c
      by_request r true a c = ((refl, λ stable waits. absurd (cc)), refl)
      by_request r false true c = ((refl, λ stable waits. absurd (cc)), refl)
      by_request r false false true = ((refl, λ stable waits. absurd (cc)), refl)
      by_request r false false false = (
        record {
          no_stream = refl;
          no_interaction = refl;
          no_batch = refl;
          no_barrier = refl;
          waiting = (record r { past_coalesce = false }, refl, refl, refl);
          marked = refl;
          disarmed = refl;
        },
        refl,
      )

      go : (o : Option (ContinuationRequest C B T)) (a c : Bool) → Promised o a c
      go none a c = ((refl, λ stable waits. waits), refl)
      go (some r) a c = by_request r r.past_coalesce a c

  -- Both halves of fire_when_stable fire exactly when all is stable. The first fires the pending
  -- request only when it is not past the window, no barrier is up, no stream is active, no interaction
  -- is pending and no tool batch is incomplete; the request then stays pending, marked as past the
  -- window, and the timer is off. It awaits only a pending interaction, with no stream active and no
  -- barrier before, and puts the barrier up, which is all that it changes. It ends without either only
  -- where no request waits, a barrier is up, a stream is active, or a batch is incomplete and no
  -- interaction is pending; the pending request is then as it was. The second half does the same where
  -- the barrier is down and no interaction is pending, and leaves the barrier down.
  pub fire_when_stable-stable :
      (active interaction incomplete : Bool) (s : Controller C B T)
      → FiresWhenStable active interaction incomplete s
          (fire_when_stable active interaction incomplete s)
        × (FiresWhenStable active false incomplete
              (record s { barrier_active = false })
              (drained active incomplete s)
            × ((drained active incomplete s).1.barrier_active ≡ false))
  fire_when_stable-stable active interaction incomplete s =
      (fire_when_stable_first active interaction incomplete s, drained_second active incomplete s)

  -- When the pending request r is activated and then finished under its identifier, a deferred
  -- request d that is not past the window becomes the pending one, nothing is deferred or active any
  -- more, and the timer is armed.
  pub finish-activate :
      (r d : ContinuationRequest C B T) (s : Controller C B T)
      → s.pending ≡ some r
      → s.deferred ≡ some d
      → d.past_coalesce ≡ false
      → let done = finish r.request_id (activate r.request_id s) in
        (done.pending ≡ some d)
        × (done.deferred ≡ none)
        × (done.active_request_id ≡ none)
        × (done.active_connection_id ≡ none)
        × (done.timer ≡ true)
  unfolding finish activate deactivate promote rearm arm cancel_timer
  finish-activate r d s e f w =
      rw (e, f, eq_refl r.request_id) (rw (eq_refl r.request_id, w) (refl, refl, refl, refl, refl))

  -- A request that does not name a connection, and a state in which nothing does.
  pub IsFree : String → Option (ContinuationRequest C B T) → Type 0
  IsFree id none = Unit
  IsFree id (some r) = holds r.connection_id id ≡ false

  pub record IsForgotten (id : String) (s : Controller C B T) : Type 0 where
    pending_free : IsFree id s.pending
    deferred_free : IsFree id s.deferred
    active_free : holds s.active_connection_id id ≡ false
    awaiting_free : All (λ entry. (entry.0 == id) ≡ false) s.awaiting_connections

  drop_id-IsFree : (id : String) (o : Option (ContinuationRequest C B T)) → IsFree id (drop_id id o)
  unfolding IsFree
  drop_id-IsFree id none = tt
  drop_id-IsFree id (some r) = elim (Bool-cases (holds r.connection_id id)) [
    | inl h ↦ rw h refl
    | inr h ↦ rw h h
  ]

  -- After release_connection, no connection that waits has the identifier, and neither the pending,
  -- the deferred nor the active request names it.
  pub release_connection-forgets :
      (id : String) (s : Controller C B T) → IsForgotten id (release_connection id s)
  unfolding release_connection
  release_connection-forgets id s = record {
    pending_free = drop_id-IsFree id s.pending;
    deferred_free = drop_id-IsFree id s.deferred;
    active_free = ground arith;
    awaiting_free = pop-All id s.awaiting_connections;
  }

-- One answer of a tool, as schedule gets it.
pub record Answer (C B T : Type 0) : Type 0 where
  pub generated : String
  pub connection : C
  pub body : B
  pub client_tools : Option T

module _ {C B T : Type 0} (id_of : C → String) where
  pub schedule_all : Answer C B T → List (Answer C B T) → Controller C B T → Controller C B T
  schedule_all a [] s = schedule id_of a.generated a.connection a.body a.client_tools s
  schedule_all a (next ∷ rest) s =
      schedule_all next rest (schedule id_of a.generated a.connection a.body a.client_tools s)

  pub latest : Answer C B T → List (Answer C B T) → Answer C B T
  latest a [] = a
  latest a (next ∷ rest) = latest next rest

  pub request_of : String → Answer C B T → ContinuationRequest C B T
  request_of id a = record {
    connection = a.connection;
    connection_id = some (id_of a.connection);
    request_id = id;
    body = a.body;
    client_tools = a.client_tools;
    past_coalesce = false;
  }

  pub IsPendingFor :
      String → Answer C B T → Option (ContinuationRequest C B T) → Controller C B T → Type 0
  IsPendingFor id a deferred s =
      (s.pending ≡ some (request_of id a)) × (s.deferred ≡ deferred) × (s.timer ≡ true)

  schedule-IsPendingFor :
      (id : String) (old a : Answer C B T) (d : Option (ContinuationRequest C B T))
      (s : Controller C B T)
      → IsPendingFor id old d s
      → IsPendingFor id a d (schedule id_of a.generated a.connection a.body a.client_tools s)
  unfolding schedule arm cancel_timer IsPendingFor request_of
  schedule-IsPendingFor id old a d s (p, q, w) = rw p (refl, q, refl)

  schedule_all-from :
      (id : String) (old a : Answer C B T) (rest : List (Answer C B T))
      (d : Option (ContinuationRequest C B T)) (s : Controller C B T)
      → IsPendingFor id old d s
      → IsPendingFor id (latest a rest) d (schedule_all a rest s)
  unfolding schedule_all latest
  schedule_all-from id old a [] d s h = schedule-IsPendingFor id old a d s h
  schedule_all-from id old a (next ∷ rest) d s h =
      schedule_all-from id a next rest d _ (schedule-IsPendingFor id old a d s h)

  first_schedule :
      (a : Answer C B T) (s : Controller C B T)
      → s.pending ≡ none
      → IsPendingFor a.generated a s.deferred
          (schedule id_of a.generated a.connection a.body a.client_tools s)
  unfolding schedule arm cancel_timer IsPendingFor request_of
  first_schedule a s e = rw e (refl, refl, refl)

  -- When no request is pending, a tool's answer and any number of further ones, before the timer
  -- fires, make one pending request: it has the identifier generated for the first answer, and the
  -- connection, body and client tools of the last. What was deferred stays so, and the timer is armed.
  pub schedule-coalesces :
      (a : Answer C B T) (rest : List (Answer C B T)) (s : Controller C B T)
      → s.pending ≡ none
      → IsPendingFor a.generated (latest a rest) s.deferred (schedule_all a rest s)
  unfolding schedule_all latest
  schedule-coalesces a [] s e = first_schedule a s e
  schedule-coalesces a (next ∷ rest) s e =
      schedule_all-from a.generated a next rest s.deferred _ (first_schedule a s e)
