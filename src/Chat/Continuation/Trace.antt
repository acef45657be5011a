-- ===== src/Chat/Continuation/Trace.antt =====
-- Sequences of the controller's calls, in any order, with what its callbacks answer.
use agents_python_cloudflare.Prelude.{ℕ, suc, String, Bool, Option, List, [], ◌∷◌, ◌++◌}
use agents_python_cloudflare.Chat.Continuation
use agents_python_cloudflare.Chat.Continuation.{
  ContinuationRequest, Controller, Firing, ends, drains, fires,
}

pub data Op (C B T : Type 0) : Type 0 where
  schedule : String → C → B → Option T → Op C B T
  rearm : Op C B T
  on_timer : Op C B T
  fire_when_stable : Bool → Bool → Bool → Op C B T
  drained : Bool → Bool → Op C B T
  drain_raised : Op C B T
  activate : String → Op C B T
  finish : String → Op C B T
  release_connection : String → Op C B T
  settle_waiters : Op C B T
  reset : Op C B T

module _ {C B T : Type 0} where
  -- the requests that a step fires
  abbrev pub fired : Firing C B T → List (ContinuationRequest C B T)
  fired ends = []
  fired drains = []
  fired (fires r) = r ∷ []

  module _ (id_of : C → String) where
    unfoldable pub step :
        Op C B T → Controller C B T → List (ContinuationRequest C B T) × Controller C B T
    step (schedule generated c b t) s = ([], Continuation.schedule id_of generated c b t s)
    step rearm s = ([], Continuation.rearm s)
    step on_timer s = ([], (Continuation.on_timer s).1)
    step (fire_when_stable active interaction incomplete) s =
        let result = Continuation.fire_when_stable active interaction incomplete s in
        (fired result.0, result.1)
    step (drained active incomplete) s =
        let result = Continuation.drained active incomplete s in (fired result.0, result.1)
    step drain_raised s = ([], Continuation.drain_raised s)
    step (activate request_id) s = ([], Continuation.activate request_id s)
    step (finish request_id) s = ([], Continuation.finish request_id s)
    step (release_connection id) s = ([], Continuation.release_connection id s)
    step settle_waiters s = ([], (Continuation.settle_waiters s).1)
    step reset s = ([], (Continuation.reset s).1)

    -- every request that a sequence fires, in order, and the state it leaves
    unfoldable pub run :
        List (Op C B T) → Controller C B T → List (ContinuationRequest C B T) × Controller C B T
    run [] s = ([], s)
    run (op ∷ ops) s = let now = step op s in let rest = run ops now.1 in (now.0 ++ rest.0, rest.1)

  unfoldable pub schedules : List (Op C B T) → ℕ
  schedules [] = 0
  schedules (schedule generated c b t ∷ ops) = suc (schedules ops)
  schedules (_ ∷ ops) = schedules ops
