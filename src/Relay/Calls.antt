-- ===== src/Relay/Calls.antt =====
-- Every call on a buffered connection keeps what holds of it.
use agents_python_cloudflare.Prelude.{
  refl, String, false, List, [], ◌∷◌, arith, Option-cases, inl, inr,
}
use agents_python_cloudflare.Json.{Json}
use agents_python_cloudflare.Relay.State.{connection_state_flags, merge_connection_state}
use agents_python_cloudflare.Relay.Connection
use agents_python_cloudflare.Relay.Connection.{
  Wire, RelayLimits, RelayOperation, send, state, tags, close, RelayError, frame_limit, byte_limit,
  raised, returned, BufferedRelayConnection, new_connection, operation_size, append, then_set, Call,
}
use agents_python_cloudflare.Relay.Log.{apply_operations}
use agents_python_cloudflare.Relay.Trace.{Action, step, run, sends, closing}
use agents_python_cloudflare.Relay.Applying.{no_close, closes_last}
use agents_python_cloudflare.Relay.Buffered.{
  IsBuffered, total_size, by_closed, send-IsBuffered, state-IsBuffered, tags-IsBuffered,
  close-IsBuffered,
}

module _ (w : Wire) (raw_state : Json) (tag_list : List String) (limits : RelayLimits) where
  set_raw_state-IsBuffered :
      (v : Json) (c : BufferedRelayConnection)
      → IsBuffered w raw_state tag_list limits c
      → IsBuffered w raw_state tag_list limits (Connection.set_raw_state w v c).1
  unfolding Connection.set_raw_state
  set_raw_state-IsBuffered v c b = elim (Option-cases (w.loads (w.dumps v))) [
    | inl unread ↦
        rw (unread, Connection.set_raw_state)
          (by_closed w raw_state tag_list limits c.closed (raised RelayError.after_close, c)
            (raised RelayError.invalid_state, c) b (λ is_open. b))
    | inr (v', e) ↦
        rw (e, Connection.set_raw_state)
          (by_closed w raw_state tag_list limits c.closed (raised RelayError.after_close, c) _ b
            (λ is_open. state-IsBuffered w raw_state tag_list limits c b is_open v'))
  ]

  sent-IsBuffered :
      (x : Call)
      → IsBuffered w raw_state tag_list limits x.1
      → IsBuffered w raw_state tag_list limits (Connection.sent w x).1
  sent-IsBuffered (raised e, c) b = b
  sent-IsBuffered (returned done, c) b = b

  send_data-IsBuffered :
      (text : String) (c : BufferedRelayConnection)
      → IsBuffered w raw_state tag_list limits c
      → IsBuffered w raw_state tag_list limits (Connection.send_data w text c).1
  unfolding Connection.send_data
  send_data-IsBuffered text c b =
      by_closed w raw_state tag_list limits c.closed (raised RelayError.after_close, c) _ b
        (λ is_open. send-IsBuffered w raw_state tag_list limits c b is_open text)

  set_state-IsBuffered :
      (v : Json) (c : BufferedRelayConnection)
      → IsBuffered w raw_state tag_list limits c
      → IsBuffered w raw_state tag_list limits (Connection.set_state w v c).1
  unfolding Connection.set_state
  set_state-IsBuffered v c b = elim (Option-cases (w.loads (w.dumps v))) [
    | inl unread ↦
        rw (unread, Connection.set_state)
          (by_closed w raw_state tag_list limits c.closed (raised RelayError.after_close, c)
            (raised RelayError.invalid_state, c) b (λ is_open. b))
    | inr (v', e) ↦
        elim (Option-cases (merge_connection_state v' (connection_state_flags c.raw_state))) [
          | inl flagged ↦
              rw (e, Connection.set_state)
                (rw (flagged, Connection.set_state)
                  (by_closed w raw_state tag_list limits c.closed (raised RelayError.after_close, c)
                    (raised RelayError.invalid_state, c) b (λ is_open. b)))
          | inr (merged, m) ↦
              rw (e, Connection.set_state)
                (rw (m, Connection.set_state)
                  (by_closed w raw_state tag_list limits c.closed (raised RelayError.after_close, c)
                    _ b (λ is_open. set_raw_state-IsBuffered merged c b)))
        ]
  ]

  step-IsBuffered :
      (a : Action) (c : BufferedRelayConnection)
      → IsBuffered w raw_state tag_list limits c
      → IsBuffered w raw_state tag_list limits (step w a c)
  unfolding step Connection.send_if_open Connection.insert_tags Connection.close_connection
  step-IsBuffered (Action.send_data text) c b = send_data-IsBuffered text c b
  step-IsBuffered (Action.send_if_open text) c b =
      by_closed w raw_state tag_list limits c.closed (returned false, c) _ b
        (λ is_open. sent-IsBuffered (Connection.send_data w text c) (send_data-IsBuffered text c b))
  step-IsBuffered (Action.set_raw_state v) c b = set_raw_state-IsBuffered v c b
  step-IsBuffered (Action.set_state v) c b = set_state-IsBuffered v c b
  step-IsBuffered (Action.insert_tags v) c b =
      by_closed w raw_state tag_list limits c.closed (raised RelayError.after_close, c) _ b
        (λ is_open. tags-IsBuffered w raw_state tag_list limits c b is_open v)
  step-IsBuffered (Action.close_connection code reason) c b =
      by_closed w raw_state tag_list limits c.closed (returned tt, c) _ b
        (λ is_open. close-IsBuffered w raw_state tag_list limits c b is_open code reason)

  pub run-IsBuffered :
      (actions : List Action) (c : BufferedRelayConnection)
      → IsBuffered w raw_state tag_list limits c
      → IsBuffered w raw_state tag_list limits (run w actions c)
  unfolding run
  run-IsBuffered [] c b = b
  run-IsBuffered (a ∷ actions) c b = run-IsBuffered actions (step w a c) (step-IsBuffered a c b)

  pub new-IsBuffered :
      IsBuffered w raw_state tag_list limits (new_connection raw_state tag_list limits)
  unfolding total_size no_close closes_last apply_operations sends closing
  new-IsBuffered = record {
    same_limits = refl;
    bytes = refl;
    frames = omega arith;
    size = inl refl;
    not_closed = λ h. refl;
    closes = refl;
    replays = refl;
  }
