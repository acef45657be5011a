-- ===== src/Relay/Connection.antt =====
-- The class `BufferedRelayConnection`. JSON text is a parameter, `Wire`.
use agents_python_cloudflare.Prelude.{
  ℕ, ◌+◌, String, Bool, true, false, Option, none, some, List, [], ◌∷◌, ◌++◌, length, leb, ltb,
  if◌then◌else◌,
}
use agents_python_cloudflare.Json.{
  Json, int, text, array, object, ℤ, Items, nil, cons, end, field, utf8_length,
}
use agents_python_cloudflare.Relay.State.{connection_state_flags, merge_connection_state}

-- `dumps_wire` and `json.loads`; `none` is a text that cannot be read.
pub record Wire : Type 0 where
  pub dumps : Json → String
  pub loads : String → Option Json

pub record RelayLimits : Type 0 where
  pub max_frames : ℕ
  pub max_bytes : ℕ

pub data RelayOperation : Type 0 where
  send : String → RelayOperation
  state : Json → RelayOperation
  tags : List String → RelayOperation
  close : ℤ → String → RelayOperation

pub data RelayError : Type 0 where
  frame_limit byte_limit after_close invalid_state invalid_log not_a_list unknown_operation
        follows_close :
      RelayError
  invalid_operation : String → RelayError

pub data Result {ℓ} (A : Type ℓ) : Type ℓ where
  raised : RelayError → Result A
  returned : A → Result A

unfoldable pub texts : List String → Items
texts [] = nil
texts (s ∷ rest) = cons (text s) (texts rest)

unfoldable pub operation_wire : RelayOperation → Json
unfolding texts
operation_wire (send payload) =
    object (field "type" (text "send") (field "data" (text payload) end))
operation_wire (state payload) = object (field "type" (text "state") (field "data" payload end))
operation_wire (tags payload) =
    object (field "type" (text "tags") (field "data" (array (texts payload)) end))
operation_wire (close code reason) =
    object
      (field "type" (text "close") (field "code" (int code) (field "reason" (text reason) end)))

pub record BufferedRelayConnection : Type 0 where
  pub raw_state : Json
  pub tag_list : List String
  pub limits : RelayLimits
  pub operation_bytes : ℕ
  pub closed : Bool
  pub operations : List RelayOperation

abbrev pub new_connection : Json → List String → RelayLimits → BufferedRelayConnection
new_connection raw_state tag_list limits = record {
  raw_state = raw_state;
  tag_list = tag_list;
  limits = limits;
  operation_bytes = 0;
  closed = false;
  operations = [];
}

unfoldable pub wire_items : List RelayOperation → Items
unfolding operation_wire
wire_items [] = nil
wire_items (operation ∷ rest) = cons (operation_wire operation) (wire_items rest)

-- What a call returns or raises, and the connection that it leaves.
abbrev pub Call : Type 0
Call = Result (Unit {0}) × BufferedRelayConnection

module _ (w : Wire) where
  unfoldable pub operation_size : RelayOperation → ℕ
  unfolding operation_wire
  operation_size operation = utf8_length (w.dumps (operation_wire operation))

  unfoldable pub append : RelayOperation → BufferedRelayConnection → Call
  unfolding operation_size
  append operation c =
      let list_bytes = 2 + c.operation_bytes + operation_size operation + length c.operations in
      if leb c.limits.max_frames (length c.operations)
      then (raised frame_limit, c)
      else if ltb c.limits.max_bytes list_bytes
      then (raised byte_limit, c)
      else (
        returned tt,
        record c {
          operation_bytes = c.operation_bytes + operation_size operation;
          operations = c.operations ++ operation ∷ [];
        },
      )

  -- What a method does where its append succeeds.
  abbrev pub then_set : Call → (BufferedRelayConnection → BufferedRelayConnection) → Call
  then_set (raised e, c) f = (raised e, c)
  then_set (returned done, c) f = (returned done, f c)

  unfoldable pub send_data : String → BufferedRelayConnection → Call
  unfolding append
  send_data payload c = if c.closed then (raised after_close, c) else append (send payload) c

  abbrev pub sent : Call → Result Bool × BufferedRelayConnection
  sent (raised e, c) = (raised e, c)
  sent (returned done, c) = (returned true, c)

  -- `payload` is the text, or that of the dict.
  unfoldable pub send_if_open :
      String → BufferedRelayConnection → Result Bool × BufferedRelayConnection
  unfolding send_data
  send_if_open payload c = if c.closed then (returned false, c) else sent (send_data payload c)

  unfoldable pub set_raw_state : Json → BufferedRelayConnection → Call
  unfolding append
  set_raw_state payload c =
      if c.closed then (raised after_close, c) else elim (w.loads (w.dumps payload)) [
        | none ↦ (raised invalid_state, c)
        | some updated ↦
            then_set (append (state updated) c) (λ c'. record c' { raw_state = updated })
      ]

  -- `payload` is the value, or what the given function makes of the user's state.
  unfoldable pub set_state : Json → BufferedRelayConnection → Call
  unfolding set_raw_state
  set_state payload c =
      if c.closed then (raised after_close, c) else elim (w.loads (w.dumps payload)) [
        | none ↦ (raised invalid_state, c)
        | some updated ↦
            elim (merge_connection_state updated (connection_state_flags c.raw_state)) [
              | none ↦ (raised invalid_state, c)
              | some merged ↦ set_raw_state merged c
            ]
      ]

  unfoldable pub insert_tags : List String → BufferedRelayConnection → Call
  unfolding append
  insert_tags updated c =
      if c.closed
      then (raised after_close, c)
      else then_set (append (tags updated) c) (λ c'. record c' { tag_list = updated })

  unfoldable pub close_connection : ℤ → String → BufferedRelayConnection → Call
  unfolding append
  close_connection code reason c =
      if c.closed
      then (returned tt, c)
      else then_set (append (close code reason) c) (λ c'. record c' { closed = true })

  unfoldable pub operation_log : BufferedRelayConnection → String
  unfolding wire_items
  operation_log c = w.dumps (array (wire_items c.operations))
