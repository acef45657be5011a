-- ===== src/Chat/TurnQueue/Stale.antt =====
-- After a reset, no turn that was enqueued before it starts, and none that was running is current;
-- the lease of a finished turn blocks no later call.
use agents_python_cloudflare.Prelude.{
  ℕ, ◌+◌, ◌≤◌, ◌<◌, ◌≡◌, refl, sym, ap, String, Bool, true, false, ◌&&◌, Option, none, some, List,
  [], ◌∷◌, ◌++◌, arith, eqb, Bool-cases, inl, inr,
}
use agents_python_cloudflare.Chat.TurnQueue
use agents_python_cloudflare.Chat.TurnQueue.{
  TurnContext, Waiter, TurnQueue, Turn, waits, stale, started, reentry_error, is_active, is_current,
  re_enters,
}

pub data Op : Type 0 where
  enqueue : String → List TurnContext → Op
  acquire : List Waiter → Waiter → List Waiter → Op
  finish reset : Op

unfoldable pub step : Op → TurnQueue → TurnQueue
step (enqueue request_id leases) s = (TurnQueue.enqueue request_id leases s).1
step (acquire before w after) s = (TurnQueue.acquire before w after s).1
step finish s = TurnQueue.finish s
step reset s = TurnQueue.reset s

unfoldable pub run : List Op → TurnQueue → TurnQueue
run [] s = s
run (op ∷ ops) s = run ops (step op s)

eqb_less : (m n : ℕ) → m < n → eqb m n ≡ false
eqb_less m n h = ground arith

eqb_more : (m n : ℕ) → n < m → eqb m n ≡ false
eqb_more m n h = ground arith

&&_false : (b : Bool) → (b && false) ≡ false
&&_false true = refl
&&_false false = refl

step-generation : (op : Op) (s : TurnQueue) → s.generation ≤ (step op s).generation
unfolding step TurnQueue.enqueue TurnQueue.acquire TurnQueue.finish TurnQueue.reset
step-generation (enqueue request_id leases) s = ground arith
step-generation (acquire before w after) s = go s.active_context
  where
    go :
        (o : Option TurnContext)
        → let s = record s { active_context = o } in
          s.generation ≤ (TurnQueue.acquire before w after s).1.generation
    go none = ground arith
    go (some context) = omega arith
step-generation finish s = omega arith
step-generation reset s = omega arith

run-generation : (ops : List Op) (s : TurnQueue) → s.generation ≤ (run ops s).generation
unfolding run
run-generation [] s = omega arith
run-generation (op ∷ ops) s = omega (arith, step-generation op s, run-generation ops (step op s))

after_reset :
    (ops : List Op) (s : TurnQueue) → s.generation < (run ops (TurnQueue.reset s)).generation
unfolding TurnQueue.reset
after_reset ops s = omega (arith, run-generation ops (record s { generation = s.generation + 1 }))

-- A waiter whose call was made when the generation was at most that of s is told that it is stale,
-- however long after a reset of s it gets the free lock, and leaves the queue; no turn starts.
pub acquire-reset :
    (before : List Waiter) (w : Waiter) (after : List Waiter) (ops : List Op) (s : TurnQueue)
    → w.captured ≤ s.generation
    → (run ops (TurnQueue.reset s)).active_context ≡ none
    → TurnQueue.acquire before w after (run ops (TurnQueue.reset s))
      ≡ (stale, record (run ops (TurnQueue.reset s)) { waiting = before ++ after })
unfolding TurnQueue.acquire
acquire-reset before w after ops s old free =
    go (run ops (TurnQueue.reset s)) free (after_reset ops s)
  where
    go :
        (s2 : TurnQueue)
        → s2.active_context ≡ none
        → s.generation < s2.generation
        → TurnQueue.acquire before w after s2 ≡ (stale, record s2 { waiting = before ++ after })
    go s2 free later = rw (free, eqb_less w.captured s2.generation (omega arith)) refl

-- A context of a generation that was current at a reset, or older, is never current after it.
pub is_current-reset :
    (context : TurnContext) (ops : List Op) (s : TurnQueue)
    → context.generation ≤ s.generation
    → is_current context (run ops (TurnQueue.reset s)) ≡ false
unfolding is_current
is_current-reset context ops s old =
    rw
      (eqb_less context.generation (run ops (TurnQueue.reset s)).generation
        (omega (arith, after_reset ops s)))
      (&&_false (is_active context (run ops (TurnQueue.reset s)).active_context))

-- A finished context: its identity has been given out, and it is not the active one.
record IsOver (context : TurnContext) (s : TurnQueue) : Type 0 where
  created : context.identity < s.created
  inactive : is_active context s.active_context ≡ false

enqueue-IsOver :
    (context : TurnContext) (request_id : String) (leases : List TurnContext) (s : TurnQueue)
    → IsOver context s
    → IsOver context (TurnQueue.enqueue request_id leases s).1
unfolding TurnQueue.enqueue
enqueue-IsOver context request_id leases s h =
    elim (Bool-cases (re_enters leases s.active_context)) [
      | inl e ↦ rw e h
      | inr e ↦ rw e (record { created = h.created; inactive = h.inactive })
    ]

step-IsOver :
    (context : TurnContext) (op : Op) (s : TurnQueue)
    → IsOver context s
    → IsOver context (step op s)
unfolding step TurnQueue.acquire TurnQueue.finish TurnQueue.reset
step-IsOver context (enqueue request_id leases) s h = enqueue-IsOver context request_id leases s h
step-IsOver context (acquire before w after) s h = go s.active_context h.inactive
  where
    go :
        (o : Option TurnContext)
        → is_active context o ≡ false
        → IsOver context (TurnQueue.acquire before w after (record s { active_context = o })).1
    go (some active) e = record { created = h.created; inactive = e }
    go none e = elim (Bool-cases (eqb w.captured s.generation)) [
      | inl same ↦ rw same (record {
        created = omega (arith, h.created);
        inactive = eqb_more s.created context.identity h.created;
      })
      | inr other ↦ rw other (record { created = h.created; inactive = e })
    ]
step-IsOver context finish s h = record { created = h.created; inactive = refl }
step-IsOver context reset s h = record { created = h.created; inactive = h.inactive }

run-IsOver :
    (context : TurnContext) (ops : List Op) (s : TurnQueue)
    → IsOver context s
    → IsOver context (run ops s)
unfolding run
run-IsOver context [] s h = h
run-IsOver context (op ∷ ops) s h = run-IsOver context ops (step op s) (step-IsOver context op s h)

abbrev identity_of : Turn → ℕ
identity_of (started context) = context.identity
identity_of _ = 0

-- A turn that starts is over once it is finished.
started-IsOver :
    (before : List Waiter) (w : Waiter) (after : List Waiter) (s : TurnQueue)
    (context : TurnContext)
    → (TurnQueue.acquire before w after s).0 ≡ started context
    → IsOver context (TurnQueue.finish (TurnQueue.acquire before w after s).1)
unfolding TurnQueue.acquire TurnQueue.finish
started-IsOver before w after s context = go s.active_context
  where
    go :
        (o : Option TurnContext)
        → (TurnQueue.acquire before w after (record s { active_context = o })).0 ≡ started context
        → IsOver context (
            TurnQueue.finish (TurnQueue.acquire before w after (record s { active_context = o })).1)
    go (some active) e = absurd (cc)
    go none e = elim (Bool-cases (eqb w.captured s.generation)) [
      | inl same ↦
          let given : context.identity ≡ s.created = sym (ap identity_of (rw same at e)) in
          rw same (record { created = omega (arith, given); inactive = refl })
      | inr other ↦ let e2 : stale ≡ started context = rw other at e in absurd (cc)
    ]

-- When a turn that has started is finished, a call that carries only its lease is not refused as a
-- re-entry, whatever the queue does in between.
pub re_enters-finish :
    (before : List Waiter) (w : Waiter) (after : List Waiter) (s : TurnQueue)
    (context : TurnContext) (ops : List Op)
    → (TurnQueue.acquire before w after s).0 ≡ started context
    → re_enters
        (context ∷ [])
        (run ops (TurnQueue.finish (TurnQueue.acquire before w after s).1)).active_context
      ≡ false
re_enters-finish before w after s context ops e =
    let over = run-IsOver context ops _ (started-IsOver before w after s context e) in
    rw over.inactive refl
