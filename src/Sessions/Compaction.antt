-- ===== src/Sessions/Compaction.antt =====
-- `_prepare_compaction_input`: which messages of a session are summarised. A message is a dict. A
-- `toolCallId` that is a list or a dict, on which the source raises, counts as one of no call.
use agents_python_cloudflare.Prelude.{
  ℕ, zero, suc, ◌+◌, String, Bool, true, false, ◌&&◌, ◌||◌, Option, none, some, List, [], ◌∷◌, ◌==◌,
  eqb, leb, ltb, length, ◌-◌, take, drop, get_elem?, if◌then◌else◌,
}
use agents_python_cloudflare.Json.{
  Json, text, array, object, Items, nil, cons, Fields, get_key, is_text_of,
}
use Prim.Native.Nat.{min}
use agents_python_cloudflare.Tasks.Policy.{starts_with}

abbrev pub protect_head : ℕ
protect_head = 3

abbrev pub min_tail_messages : ℕ
min_tail_messages = 2

-- What the dicts are of a list of values, and of a message's parts.
unfoldable pub dicts : Items → List Fields
dicts nil = []
dicts (cons (object fs) items) = fs ∷ dicts items
dicts (cons v items) = dicts items

unfoldable pub parts_of : Option Json → List Fields
unfolding dicts
parts_of (some (array items)) = dicts items
parts_of value = []

abbrev pub is_tool_part_type : Option Json → Bool
is_tool_part_type (some (text s)) = starts_with "tool-" s || s == "dynamic-tool"
is_tool_part_type value = false

abbrev pub is_tool_part : Fields → Bool
is_tool_part part = is_tool_part_type (get_key "type" part)

unfoldable pub any_part : (Fields → Bool) → List Fields → Bool
any_part p [] = false
any_part p (part ∷ rest) = p part || any_part p rest

unfoldable pub has_tool_calls : Fields → Bool
unfolding any_part parts_of
has_tool_calls message = any_part is_tool_part (parts_of (get_key "parts" message))

-- The set of the ids, as a list.
unfoldable pub call_ids : List Fields → List String
call_ids [] = []
call_ids (part ∷ rest) =
    let later = call_ids rest in
    elim (get_key "toolCallId" part) [
      | some (text id) ↦ if is_tool_part part then id ∷ later else later
      | _ ↦ later
    ]

abbrev pub tool_call_ids : Fields → List String
tool_call_ids message = call_ids (parts_of (get_key "parts" message))

abbrev pub holds_id : List String → Option Json → Bool
holds_id [] value = false
holds_id (id ∷ rest) value = is_text_of id value || holds_id rest value

unfoldable pub is_tool_result_for : List String → Fields → Bool
unfolding any_part parts_of
is_tool_result_for ids message =
    any_part (λ part. is_tool_part part && holds_id ids (get_key "toolCallId" part))
      (parts_of (get_key "parts" message))

unfoldable pub is_compaction_message : Fields → Bool
is_compaction_message message = elim (get_key "id" message) [
  | some (text id) ↦ starts_with "compaction_" id
  | _ ↦ false
]

-- The ids of an assistant's message that calls tools.
unfoldable pub calls_of : Fields → Option (List String)
unfolding has_tool_calls call_ids parts_of
calls_of message =
    if is_text_of "assistant" (get_key "role" message) && has_tool_calls message
    then some (tool_call_ids message)
    else none

unfoldable pub calls_at : List Fields → ℕ → Option (List String)
unfolding calls_of
calls_at messages index = elim (get_elem? messages index) [
  | none ↦ none
  | some message ↦ calls_of message
]

-- The index of the first message from one on that is no result of the calls.
unfoldable pub past_results : List String → ℕ → List Fields → ℕ
unfolding is_tool_result_for
past_results ids index [] = index
past_results ids index (message ∷ rest) =
    let later = past_results ids (index + 1) rest in
    if is_tool_result_for ids message then later else index

unfoldable pub align_boundary_forward : List Fields → ℕ → ℕ
unfolding calls_at past_results
align_boundary_forward messages index =
    if eqb index 0 || leb (length messages) index
    then index
    else elim (calls_at messages (index - 1)) [
      | none ↦ index
      | some ids ↦ past_results ids index (drop index messages)
    ]

unfoldable pub all_results : List String → List Fields → Bool
unfolding is_tool_result_for
all_results ids [] = true
all_results ids (message ∷ rest) = is_tool_result_for ids message && all_results ids rest

-- The loop, with so many messages still to look at.
unfoldable pub search_call : List Fields → ℕ → ℕ → ℕ
unfolding calls_at all_results
search_call messages index zero = index
search_call messages index (suc call_index) =
    let earlier = search_call messages index call_index in
    elim (calls_at messages call_index) [
      | none ↦ earlier
      | some ids ↦
          if all_results ids (take (index - call_index) (drop (call_index + 1) messages))
          then call_index
          else index
    ]

unfoldable pub align_boundary_backward : List Fields → ℕ → ℕ
unfolding search_call
align_boundary_backward messages index =
    if eqb index 0 || leb (length messages) index then index else search_call messages index index

-- `estimate_tokens` is a parameter; `exceeds` is whether a number of tokens is more than the budget,
-- which may be a float.
module _ (messages : List Fields) (head_end : ℕ) (exceeds : ℕ → Bool)
    (estimate_tokens : Fields → ℕ) where
  abbrev pub tokens_at : ℕ → ℕ
  tokens_at index = elim (get_elem? messages index) [
    | none ↦ 0
    | some message ↦ estimate_tokens message
  ]

  -- The loop downwards, with so many indexes above `head_end` left.
  unfoldable pub token_cut_from : ℕ → ℕ → ℕ → ℕ
  token_cut_from zero accumulated token_cut = token_cut
  token_cut_from (suc left) accumulated token_cut =
      let index = head_end + left in
      let later = token_cut_from left (accumulated + tokens_at index) index in
      if exceeds (accumulated + tokens_at index) && ltb token_cut (length messages)
      then token_cut
      else later

  unfoldable pub find_tail_cut : ℕ
  unfolding token_cut_from align_boundary_backward
  find_tail_cut =
      let token_cut = token_cut_from (length messages - head_end) 0 (length messages) in
      align_boundary_backward messages (
        if leb (head_end + min_tail_messages) (length messages)
        then min token_cut (length messages - min_tail_messages)
        else token_cut)
