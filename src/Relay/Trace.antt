-- ===== src/Relay/Trace.antt =====
-- Sequences of calls on a buffered connection, and what a real connection makes of its log.
use agents_python_cloudflare.Prelude.{
  Option, none, some, String, Bool, true, false, List, [], ◌∷◌, ◌++◌, if◌then◌else◌,
}
use agents_python_cloudflare.Json.{Json, ℤ}
use agents_python_cloudflare.Relay.Connection
use agents_python_cloudflare.Relay.Connection.{Wire, RelayOperation, BufferedRelayConnection}
use agents_python_cloudflare.Relay.Log.{RelaySink}

pub data Action : Type 0 where
  send_data : String → Action
  send_if_open : String → Action
  set_raw_state : Json → Action
  set_state : Json → Action
  insert_tags : List String → Action
  close_connection : ℤ → String → Action

module _ (w : Wire) where
  -- A call that raises leaves the connection that it found, so a handler may go on after it.
  unfoldable pub step : Action → BufferedRelayConnection → BufferedRelayConnection
  step (send_data text) c = (Connection.send_data w text c).1
  step (send_if_open text) c = (Connection.send_if_open w text c).1
  step (set_raw_state value) c = (Connection.set_raw_state w value c).1
  step (set_state value) c = (Connection.set_state w value c).1
  step (insert_tags tags) c = (Connection.insert_tags w tags c).1
  step (close_connection code reason) c = (Connection.close_connection w code reason c).1

  unfoldable pub run : List Action → BufferedRelayConnection → BufferedRelayConnection
  run [] c = c
  run (a ∷ rest) c = run rest (step a c)

-- A sink that keeps what it is told: its state and tags, the frames that it sent, in order, and
-- whether it is closed.
pub record Recorder : Type 0 where
  pub state : Json
  pub tags : List String
  pub frames : List String
  pub closed : Bool
  pub ending : Option (ℤ × String)

abbrev pub recorder : RelaySink Recorder
recorder = record {
  send_if_open = λ text s.
      if s.closed then (false, s) else (true, record s { frames = s.frames ++ text ∷ [] });
  set_raw_state = λ value s. record s { state = value };
  insert_tags = λ tags s. record s { tags = tags };
  close_sink = λ code reason s. record s { closed = true; ending = some (code, reason) };
}

-- The frames of a log.
unfoldable pub sends : List RelayOperation → List String
sends [] = []
sends (RelayOperation.send text ∷ rest) = text ∷ sends rest
sends (operation ∷ rest) = sends rest

-- The code and the reason after an operation, and the last ones of a log.
abbrev pub ending_after : RelayOperation → Option (ℤ × String) → Option (ℤ × String)
ending_after (RelayOperation.close code reason) before = some (code, reason)
ending_after operation before = before

unfoldable pub closing : List RelayOperation → Option (ℤ × String)
closing [] = none
closing (operation ∷ rest) = elim (closing rest) [
  | some last ↦ some last
  | none ↦ ending_after operation none
]

abbrev pub recorded : BufferedRelayConnection → Recorder
recorded c = record {
  state = c.raw_state;
  tags = c.tag_list;
  frames = sends c.operations;
  closed = c.closed;
  ending = closing c.operations;
}
