-- ===== src/Chat/Folding/Accumulator.antt =====
-- `apply` and `should_suppress` of `MessageAccumulator`.
use agents_python_cloudflare.Prelude.{
  String, Bool, true, false, ◌||◌, not, Option, none, some, List, ◌==◌, if◌then◌else◌,
}
use agents_python_cloudflare.Json.{Json, text, Fields, get_key, set_key, as_text, is_text_of}
use agents_python_cloudflare.Tasks.Policy.{starts_with}
use agents_python_cloudflare.Chat.Folding.Parts.{Builtins, find_tool_part, merge_metadata}
use agents_python_cloudflare.Chat.Folding.Tools.{
  FoldEffect, effect, is_state, is_settled, is_final_output,
}
use agents_python_cloudflare.Chat.Folding.Chunks.{
  MessageAccumulator, Handler, message_chunk, handlers, handler_in, apply_data, run_handler,
}

abbrev pub unhandled : FoldEffect
unhandled = record (effect false) { handled = false }

module _ (py : Builtins) (chunk : Fields) where
  -- The new id of a message that starts.
  abbrev pub with_id : String → Option Json → Fields → Bool × Fields
  with_id chunk_type (some (text id)) message =
      if chunk_type == "start"
      then (not (is_text_of id (get_key "id" message)), set_key "id" (text id) message)
      else (false, message)
  with_id chunk_type value message = (false, message)

  unfoldable pub apply_message_chunk : String → MessageAccumulator → FoldEffect × MessageAccumulator
  unfolding merge_metadata
  apply_message_chunk chunk_type a = elim a.message [
    | none ↦ (effect false, a)
    | some message ↦
        let (renamed, named) = with_id chunk_type (get_key "messageId" chunk) message in
        let (merged, message') =
          merge_metadata py named "metadata" (get_key "messageMetadata" chunk) in
        (effect (renamed || merged), record a { message = some message' })
  ]

  abbrev pub on_parts :
      MessageAccumulator → FoldEffect × List Fields → FoldEffect × MessageAccumulator
  on_parts a (e, parts) = (e, record a { parts = parts })

  abbrev pub handle : String → Option Handler → MessageAccumulator → FoldEffect × MessageAccumulator
  handle chunk_type (some message_chunk) a = apply_message_chunk chunk_type a
  handle chunk_type (some handler) a = on_parts a (run_handler py chunk_type chunk a.parts handler)
  handle chunk_type none a =
      if starts_with "data-" chunk_type
      then on_parts a (apply_data py chunk_type chunk a.parts)
      else (unhandled, a)

  unfoldable pub apply : MessageAccumulator → FoldEffect × MessageAccumulator
  unfolding handler_in
  apply a = elim (as_text (get_key "type" chunk)) [
    | none ↦ (unhandled, a)
    | some chunk_type ↦ handle chunk_type (handler_in chunk_type handlers) a
  ]

  -- Whether a chunk of a type comes too late for a part.
  unfoldable pub is_late : String → Fields → Bool
  is_late chunk_type part =
      if chunk_type == "tool-input-start"
      then true
      else if chunk_type == "tool-input-delta" || chunk_type == "tool-input-available"
      then not (is_state "input-streaming" part)
      else if chunk_type == "tool-input-error"
      then is_settled part
      else if chunk_type == "tool-output-available" || chunk_type == "tool-output-error"
      then is_final_output part
      else if chunk_type == "tool-output-denied" || chunk_type == "tool-approval-request"
      then is_settled part
      else false

  abbrev pub is_late_chunk : Option String → Fields → Bool
  is_late_chunk none part = false
  is_late_chunk (some chunk_type) part = is_late chunk_type part

  unfoldable pub should_suppress : MessageAccumulator → Bool
  unfolding is_late
  should_suppress a = elim (as_text (get_key "toolCallId" chunk)) [
    | none ↦ false
    | some tool_call_id ↦ elim (find_tool_part py a.parts (some (text tool_call_id))) [
      | none ↦ false
      | some part ↦ is_late_chunk (as_text (get_key "type" chunk)) part
    ]
  ]
