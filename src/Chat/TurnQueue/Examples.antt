-- ===== src/Chat/TurnQueue/Examples.antt =====
-- Runs of the turn queue.
use agents_python_cloudflare.Prelude.{◌≡◌, refl, ◌++◌, false, none, some, List, [], ◌∷◌, arith}
use agents_python_cloudflare.Chat.TurnQueue.{
  TurnContext, Waiter, TurnQueue, stale, started, acquire, finish, reset, re_enters, new_queue,
  enqueue,
}
use agents_python_cloudflare.Chat.TurnQueue.Stale.{Op, step, run, acquire-reset, re_enters-finish}

abbrev waiter : Waiter
waiter = record { request_id = "q1"; captured = 0 }

abbrev queued : TurnQueue
queued = record { generation = 0; active_context = none; waiting = waiter ∷ []; created = 0 }

abbrev turn : TurnContext
turn = record { identity = 0; request_id = "q1"; generation = 0 }

abbrev running : TurnQueue
running = record { generation = 0; active_context = some turn; waiting = []; created = 1 }

-- while the first turn runs, a second call waits; the queue is reset and the turn returns
abbrev later : List Op
later = Op.enqueue "q2" [] ∷ Op.finish ∷ []

queueing : (enqueue "q1" [] new_queue).1 ≡ queued
unfolding enqueue new_queue
queueing = refl

starting : acquire [] waiter [] queued ≡ (started turn, running)
unfolding acquire
starting = refl

acquire-reset_example :
    acquire [] waiter [] (run later (reset queued))
    ≡ (stale, record (run later (reset queued)) { waiting = [] ++ [] })
unfolding run step enqueue finish reset
acquire-reset_example = acquire-reset [] waiter [] later queued (omega arith) refl

re_enters-finish_example :
    re_enters (turn ∷ []) (run later (finish (acquire [] waiter [] queued).1)).active_context
    ≡ false
unfolding acquire
re_enters-finish_example = re_enters-finish [] waiter [] queued turn later refl
