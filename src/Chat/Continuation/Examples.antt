-- ===== src/Chat/Continuation/Examples.antt =====
-- Runs of the continuation controller, with text for connections and numbers for bodies.
use agents_python_cloudflare.Prelude.{
  ℕ, ◌≤◌, ◌≡◌, refl, String, true, false, none, some, List, [], ◌∷◌, length,
}
use agents_python_cloudflare.Chat.Continuation.{
  ContinuationRequest, Controller, initial, fire_when_stable, drained, activate, finish,
  release_connection, schedule, new_request, arm, cancel_timer, on_timer, fire, deactivate, promote,
  rearm,
}
use agents_python_cloudflare.Chat.Continuation.Trace.{Op, step, run, schedules}
use agents_python_cloudflare.Chat.Continuation.Fires.{run-fires_once}
use agents_python_cloudflare.Chat.Continuation.Requests.{
  FiresWhenStable, IsForgotten, IsPendingFor, Answer, schedule_all, latest, fire_when_stable-stable,
  release_connection-forgets, schedule-coalesces,
}

abbrev itself : String → String
itself s = s

abbrev State : Type 0
State = Controller String ℕ String

abbrev first_request : ContinuationRequest String ℕ String
first_request = new_request itself "q1" "a" 1 none

abbrev second_request : ContinuationRequest String ℕ String
second_request = new_request itself "q2" "b" 2 none

abbrev fired_request : ContinuationRequest String ℕ String
fired_request = record first_request { past_coalesce = true }

abbrev scheduled : State
scheduled = record {
  pending = some first_request;
  deferred = none;
  active_request_id = none;
  active_connection_id = none;
  awaiting_connections = ("a", ("a", none)) ∷ [];
  timer = true;
  barrier_active = false;
}

abbrev firing : State
firing = record {
  pending = some fired_request;
  deferred = some second_request;
  active_request_id = none;
  active_connection_id = none;
  awaiting_connections = ("a", ("a", none)) ∷ ("b", ("b", none)) ∷ [];
  timer = false;
  barrier_active = false;
}

abbrev calls : List (Op String ℕ String)
calls =
    Op.schedule "q1" "a" 1 none
    ∷ Op.on_timer
    ∷ Op.fire_when_stable false true false
    ∷ Op.schedule "q2" "b" 2 none
    ∷ Op.drained false false
    ∷ Op.schedule "q3" "c" 3 none
    ∷ Op.activate "q1"
    ∷ Op.finish "q1"
    ∷ Op.fire_when_stable false false false
    ∷ []

scheduling : schedule itself "q1" "a" 1 none initial ≡ scheduled
unfolding schedule initial
scheduling = refl

-- three answers, two of them in one window, make two continuations
two_fired : length (run itself calls initial).0 ≡ 2
unfolding run step initial schedule arm cancel_timer on_timer fire_when_stable fire drained activate
    finish deactivate promote rearm
two_fired = refl

run-fires_once_example : length (run itself calls initial).0 ≤ schedules calls
run-fires_once_example = run-fires_once itself calls

fire_when_stable-stable_example :
    FiresWhenStable false false false scheduled (fire_when_stable false false false scheduled)
    × (FiresWhenStable false false false
          (record scheduled { barrier_active = false })
          (drained false false scheduled)
        × ((drained false false scheduled).1.barrier_active ≡ false))
fire_when_stable-stable_example = fire_when_stable-stable false false false scheduled

release_connection-forgets_example : IsForgotten "b" (release_connection "b" firing)
release_connection-forgets_example = release_connection-forgets "b" firing

abbrev answer : String → String → ℕ → Answer String ℕ String
answer id c b = record { generated = id; connection = c; body = b; client_tools = none }

schedule-coalesces_example :
    IsPendingFor itself "q1"
      (latest itself (answer "q1" "a" 1) (answer "q2" "b" 2 ∷ []))
      none
      (schedule_all itself (answer "q1" "a" 1) (answer "q2" "b" 2 ∷ []) initial)
unfolding initial
schedule-coalesces_example =
    schedule-coalesces itself (answer "q1" "a" 1) (answer "q2" "b" 2 ∷ []) initial refl
