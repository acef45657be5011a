-- ===== src/Relay/Log.antt =====
-- `decode_operation_log` and `apply_operations` of agents/core/subagent_relay.py.
use agents_python_cloudflare.Prelude.{
  ℕ, suc, String, Bool, true, false, ◌&&◌, ◌||◌, Option, none, some, List, [], ◌∷◌, ◌==◌, ltb,
  if◌then◌else◌,
}
use agents_python_cloudflare.Json.{
  Json, int, text, array, object, ℤ, Items, nil, cons, Fields, end, field, get_key, has_key,
  is_text_of, utf8_length,
}
use agents_python_cloudflare.Relay.Connection.{
  Wire, RelayLimits, RelayOperation, send, state, tags, close, frame_limit, byte_limit, invalid_log,
  not_a_list, unknown_operation, follows_close, invalid_operation, Result, raised, returned,
}

-- set(value) == {…}
abbrev pub is_among : String → List String → Bool
is_among key [] = false
is_among key (other ∷ rest) = other == key || is_among key rest

unfoldable pub keys_among : Fields → List String → Bool
keys_among end keys = true
keys_among (field key v fs) keys = is_among key keys && keys_among fs keys

unfoldable pub has_keys : List String → Fields → Bool
has_keys [] fs = true
has_keys (key ∷ rest) fs = has_key key fs && has_keys rest fs

unfoldable pub same_keys : Fields → List String → Bool
unfolding keys_among has_keys
same_keys fs keys = keys_among fs keys && has_keys keys fs

-- The list of texts, unless an item is none.
unfoldable pub all_texts : Items → Option (List String)
all_texts nil = some []
all_texts (cons (text s) items) = elim (all_texts items) [
  | none ↦ none
  | some rest ↦ some (s ∷ rest)
]
all_texts (cons v items) = none

abbrev pub decode_send : Option Json → Result RelayOperation
decode_send (some (text payload)) = returned (send payload)
decode_send _ = raised (invalid_operation "send")

abbrev pub decode_state : Option Json → Result RelayOperation
decode_state (some payload) = returned (state payload)
decode_state none = raised (invalid_operation "state")

abbrev pub decode_texts : Option (List String) → Result RelayOperation
decode_texts (some payload) = returned (tags payload)
decode_texts none = raised (invalid_operation "tags")

abbrev pub decode_tags : Option Json → Result RelayOperation
decode_tags (some (array items)) = decode_texts (all_texts items)
decode_tags _ = raised (invalid_operation "tags")

abbrev pub decode_close : Option Json → Option Json → Result RelayOperation
decode_close (some (int code)) (some (text reason)) = returned (close code reason)
decode_close _ _ = raised (invalid_operation "close")

abbrev pub if_keys : Bool → String → Result RelayOperation → Result RelayOperation
if_keys true kind result = result
if_keys false kind result = raised (invalid_operation kind)

unfoldable pub decode_operation : Json → Result RelayOperation
unfolding same_keys
decode_operation (object fs) =
    let kind = get_key "type" fs in
    if is_text_of "send" kind
    then if_keys (same_keys fs ("type" ∷ "data" ∷ [])) "send" (decode_send (get_key "data" fs))
    else if is_text_of "state" kind
    then if_keys (same_keys fs ("type" ∷ "data" ∷ [])) "state" (decode_state (get_key "data" fs))
    else if is_text_of "tags" kind
    then if_keys (same_keys fs ("type" ∷ "data" ∷ [])) "tags" (decode_tags (get_key "data" fs))
    else if is_text_of "close" kind
    then if_keys (same_keys fs ("type" ∷ "code" ∷ "reason" ∷ [])) "close"
        (decode_close (get_key "code" fs) (get_key "reason" fs))
    else raised unknown_operation
decode_operation value = raised (invalid_operation "")

abbrev pub is_close : RelayOperation → Bool
is_close (close code reason) = true
is_close operation = false

abbrev pub prepended : RelayOperation → Result (List RelayOperation) → Result (List RelayOperation)
prepended operation (raised e) = raised e
prepended operation (returned rest) = returned (operation ∷ rest)

-- The loop; `closed` is whether a close has been decoded.
unfoldable pub decode_items : Bool → Items → Result (List RelayOperation)
unfolding decode_operation
decode_items closed nil = returned []
decode_items true (cons item items) = raised follows_close
decode_items false (cons item items) = elim (decode_operation item) [
  | raised e ↦ raised e
  | returned operation ↦ prepended operation (decode_items (is_close operation) items)
]

unfoldable pub count_items : Items → ℕ
count_items nil = 0
count_items (cons item items) = suc (count_items items)

abbrev pub decode_parsed : RelayLimits → Option Json → Result (List RelayOperation)
decode_parsed limits (some (array items)) =
    if ltb limits.max_frames (count_items items)
    then raised frame_limit
    else decode_items false items
decode_parsed limits (some value) = raised not_a_list
decode_parsed limits none = raised invalid_log

module _ (w : Wire) where
  unfoldable pub decode_operation_log : String → RelayLimits → Result (List RelayOperation)
  decode_operation_log raw limits =
      if ltb limits.max_bytes (utf8_length raw)
      then raised byte_limit
      else decode_parsed limits (w.loads raw)

-- What a sink offers; `close` and the others are of the real connection.
pub record RelaySink (S : Type 0) : Type 0 where
  pub send_if_open : String → S → Bool × S
  pub set_raw_state : Json → S → S
  pub insert_tags : List String → S → S
  pub close_sink : ℤ → String → S → S

unfoldable pub apply_operations : {S : Type 0} → RelaySink S → List RelayOperation → S → S
apply_operations k [] s = s
apply_operations k (send payload ∷ rest) s =
    let (is_open, s') = k.send_if_open payload s in
    let later = apply_operations k rest s' in if is_open then later else s'
apply_operations k (state payload ∷ rest) s = apply_operations k rest (k.set_raw_state payload s)
apply_operations k (tags payload ∷ rest) s = apply_operations k rest (k.insert_tags payload s)
apply_operations k (close code reason ∷ rest) s = k.close_sink code reason s
