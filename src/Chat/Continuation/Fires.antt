-- ===== src/Chat/Continuation/Fires.antt =====
-- A continuation is fired when the conversation is stable, and once for a tool answer at most.
use agents_python_cloudflare.Prelude.{
  ℕ, suc, ◌+◌, ◌≤◌, ◌≡◌, refl, if◌then◌else◌, String, Bool, Option, none, some, List, [], ◌∷◌,
  length, length-append, arith,
}
use agents_python_cloudflare.Chat.Continuation
use agents_python_cloudflare.Chat.Continuation.{
  ContinuationRequest, Controller, ends, drains, fires, fire, cancel_timer, initial, drop_id,
  promote, deactivate,
}
use agents_python_cloudflare.Chat.Continuation.Trace.{Op, fired, step, run, schedules}

module _ {C B T : Type 0} where
  -- how many requests a slot may still fire
  unfired : Option (ContinuationRequest C B T) → ℕ
  unfired none = 0
  unfired (some r) = if r.past_coalesce then 0 else 1

  held : Option (ContinuationRequest C B T) → ℕ
  held none = 0
  held (some r) = 1

  potential : Controller C B T → ℕ
  potential s = unfired s.pending + held s.deferred

  drop_id-unfired :
      (id : String) (o : Option (ContinuationRequest C B T)) → unfired (drop_id id o) ≡ unfired o
  unfolding unfired
  drop_id-unfired id none = refl
  drop_id-unfired id (some r) = ground arith

  drop_id-held :
      (id : String) (o : Option (ContinuationRequest C B T)) → held (drop_id id o) ≡ held o
  unfolding held
  drop_id-held id none = refl
  drop_id-held id (some r) = ground arith

  fire_when_stable-potential :
      (active interaction incomplete : Bool) (s : Controller C B T)
      → let f = Continuation.fire_when_stable active interaction incomplete s in
        length (fired f.0) + potential f.1 ≤ potential s
  unfolding Continuation.fire_when_stable fire cancel_timer potential unfired held
  fire_when_stable-potential active interaction incomplete s = go s.pending
    where
      go :
          (o : Option (ContinuationRequest C B T))
          → let s = record s { pending = o } in
            let f = Continuation.fire_when_stable active interaction incomplete s in
            length (fired f.0) + potential f.1 ≤ potential s
      go none = omega arith
      go (some r) = ground arith

  drained-potential :
      (active incomplete : Bool) (s : Controller C B T)
      → let f = Continuation.drained active incomplete s in
        length (fired f.0) + potential f.1 ≤ potential s
  unfolding Continuation.drained fire cancel_timer potential unfired held
  drained-potential active incomplete s = go s.pending
    where
      go :
          (o : Option (ContinuationRequest C B T))
          → let s = record s { pending = o } in
            let f = Continuation.drained active incomplete s in
            length (fired f.0) + potential f.1 ≤ potential s
      go none = omega arith
      go (some r) = ground arith

  rearm-potential : (s : Controller C B T) → potential (Continuation.rearm s) ≡ potential s
  unfolding Continuation.rearm Continuation.arm cancel_timer potential unfired held
  rearm-potential s = go s.pending
    where
      go :
          (o : Option (ContinuationRequest C B T))
          → potential (Continuation.rearm (record s { pending = o }))
            ≡ potential (record s { pending = o })
      go none = refl
      go (some r) = ground arith

  activate-potential :
      (id : String) (s : Controller C B T) → potential (Continuation.activate id s) ≤ potential s
  unfolding Continuation.activate potential unfired held
  activate-potential id s = go s.pending
    where
      go :
          (o : Option (ContinuationRequest C B T))
          → let s = record s { pending = o } in potential (Continuation.activate id s) ≤ potential s
      go none = omega arith
      go (some r) = ground arith

  promote-potential : (s : Controller C B T) → potential (promote s) ≤ potential s
  unfolding promote Continuation.rearm Continuation.arm cancel_timer potential unfired held
  promote-potential s = go s.pending s.deferred
    where
      go :
          (o d : Option (ContinuationRequest C B T))
          → let s = record s { pending = o; deferred = d } in potential (promote s) ≤ potential s
      go (some r) d = omega arith
      go none none = omega arith
      go none (some r) = ground arith

  deactivate-potential :
      (id : String) (s : Controller C B T) → potential (deactivate id s) ≡ potential s
  unfolding deactivate potential
  deactivate-potential id s = ground arith

  schedules-cons :
      (op : Op C B T) (ops : List (Op C B T))
      → schedules (op ∷ ops) ≡ schedules (op ∷ []) + schedules ops
  unfolding schedules
  schedules-cons (Op.schedule generated c b t) ops = omega arith
  schedules-cons Op.rearm ops = omega arith
  schedules-cons Op.on_timer ops = omega arith
  schedules-cons (Op.fire_when_stable a i c) ops = omega arith
  schedules-cons (Op.drained a c) ops = omega arith
  schedules-cons Op.drain_raised ops = omega arith
  schedules-cons (Op.activate id) ops = omega arith
  schedules-cons (Op.finish id) ops = omega arith
  schedules-cons (Op.release_connection id) ops = omega arith
  schedules-cons Op.settle_waiters ops = omega arith
  schedules-cons Op.reset ops = omega arith

  -- Whatever a step fires is taken from what could be fired before it.
  module _ (id_of : C → String) where
    schedule-potential :
        (generated : String) (c : C) (b : B) (t : Option T) (s : Controller C B T)
        → potential (Continuation.schedule id_of generated c b t s) ≤ suc (potential s)
    unfolding Continuation.schedule Continuation.arm cancel_timer potential unfired held
    schedule-potential generated c b t s = go s.pending s.deferred
      where
        go :
            (o d : Option (ContinuationRequest C B T))
            → let s = record s { pending = o; deferred = d } in
              potential (Continuation.schedule id_of generated c b t s) ≤ suc (potential s)
        go none d = ground arith
        go (some r) none = ground arith
        go (some r) (some d) = ground arith

    step-potential :
        (op : Op C B T) (s : Controller C B T)
        → let now = step id_of op s in
          length now.0 + potential now.1 ≤ schedules (op ∷ []) + potential s
    unfolding step schedules
    step-potential (Op.schedule generated c b t) s =
        omega (arith, schedule-potential generated c b t s)
    step-potential Op.rearm s = omega (arith, rearm-potential s)
    step-potential Op.on_timer s = unfold Continuation.on_timer potential in omega arith
    step-potential (Op.fire_when_stable a i c) s = omega (arith, fire_when_stable-potential a i c s)
    step-potential (Op.drained a c) s = omega (arith, drained-potential a c s)
    step-potential Op.drain_raised s = unfold Continuation.drain_raised potential in omega arith
    step-potential (Op.activate id) s = omega (arith, activate-potential id s)
    step-potential (Op.finish id) s =
        unfold Continuation.finish in
        omega (arith, promote-potential (deactivate id s), deactivate-potential id s)
    step-potential (Op.release_connection id) s =
        unfold Continuation.release_connection potential in
        omega (arith, drop_id-unfired id s.pending, drop_id-held id s.deferred)
    step-potential Op.settle_waiters s = unfold Continuation.settle_waiters potential in omega arith
    step-potential Op.reset s =
        unfold Continuation.reset Continuation.settle_waiters cancel_timer potential unfired held in
        omega arith

    run-potential :
        (ops : List (Op C B T)) (s : Controller C B T)
        → let end = run id_of ops s in length end.0 + potential end.1 ≤ schedules ops + potential s
    unfolding run schedules
    run-potential [] s = omega arith
    run-potential (op ∷ ops) s =
        let now = step id_of op s in
        omega (
          arith,
          length-append now.0 (run id_of ops now.1).0,
          run-potential ops now.1,
          step-potential op s,
          schedules-cons op ops,
        )

    -- In every sequence of the controller's calls from its initial state, with any answers of its
    -- callbacks and any interleaving at the await of fire_when_stable, the requests that are fired
    -- are at most as many as the calls of schedule.
    pub run-fires_once : (ops : List (Op C B T)) → length (run id_of ops initial).0 ≤ schedules ops
    unfolding initial potential unfired held
    run-fires_once ops = omega (arith, run-potential ops initial)
