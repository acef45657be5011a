-- ===== src/Chat/Folding/Chunks.antt =====
-- The class `MessageAccumulator` of agents/chat/folding.py: its other handlers, `apply` and
-- `should_suppress`. The parts and the message are its state.
use Prim.Native.Char.{code}
use agents_python_cloudflare.Prelude.{
  String, Bool, true, false, ◌&&◌, ◌||◌, not, Option, none, some, List, [], ◌∷◌, ◌++◌, ◌==◌, eqb,
  coalesce, if◌then◌else◌,
}
use agents_python_cloudflare.Json.{
  Json, text, Fields, end, field, get_key, set_key, concat, is_true, is_null,
}
use agents_python_cloudflare.Chat.Folding.Parts.{
  Builtins, find_last, update_last, has_type, find_last_part, is_falsy, is_value, text_or_empty,
  value_of, copy_value, merge_metadata,
}
use agents_python_cloudflare.Chat.Folding.Tools.{
  effect, Folded, is_state, apply_tool_input_start, apply_tool_input_delta,
  apply_tool_input_available, apply_tool_input_error, apply_tool_approval_request,
  apply_tool_output_denied, apply_tool_output_available, apply_tool_output_error,
}

pub record MessageAccumulator : Type 0 where
  pub parts : List Fields
  pub message : Option Fields

-- `_CHUNK_HANDLERS`
pub data Handler : Type 0 where
  text_start text_delta text_end file source tool_input_start tool_input_delta tool_input_available
        tool_input_error tool_approval_request tool_output_denied tool_output_available
        tool_output_error step_start message_chunk finish_step error_chunk :
      Handler

abbrev pub handlers : List (String × Handler)
handlers =
    ("text-start", text_start)
    ∷ ("text-delta", text_delta)
    ∷ ("text-end", text_end)
    ∷ ("reasoning-start", text_start)
    ∷ ("reasoning-delta", text_delta)
    ∷ ("reasoning-end", text_end)
    ∷ ("file", file)
    ∷ ("source-url", source)
    ∷ ("source-document", source)
    ∷ ("tool-input-start", tool_input_start)
    ∷ ("tool-input-delta", tool_input_delta)
    ∷ ("tool-input-available", tool_input_available)
    ∷ ("tool-input-error", tool_input_error)
    ∷ ("tool-approval-request", tool_approval_request)
    ∷ ("tool-output-denied", tool_output_denied)
    ∷ ("tool-output-available", tool_output_available)
    ∷ ("tool-output-error", tool_output_error)
    ∷ ("step-start", step_start)
    ∷ ("start-step", step_start)
    ∷ ("start", message_chunk)
    ∷ ("finish", message_chunk)
    ∷ ("message-metadata", message_chunk)
    ∷ ("finish-step", finish_step)
    ∷ ("error", error_chunk)
    ∷ []

unfoldable pub handler_in : String → List (String × Handler) → Option Handler
handler_in chunk_type [] = none
handler_in chunk_type ((name, handler) ∷ rest) =
    let later = handler_in chunk_type rest in if name == chunk_type then some handler else later

-- What stands before the last dash.
unfoldable pub before_dash : String → Option String
before_dash String.[] = none
before_dash (String.◌∷◌ c s) = elim (before_dash s) [
  | some rest ↦ some (String.◌∷◌ c rest)
  | none ↦ if eqb (code c) 0x2D then some "" else none
]

abbrev pub block_name : String → String
block_name chunk_type = coalesce (before_dash chunk_type) ""

-- value or ""
abbrev pub or_empty : Option Json → Json
or_empty value = if is_falsy value then text "" else value_of value

module _ (py : Builtins) (chunk_type : String) (chunk : Fields) (parts : List Fields) where
  unfoldable pub apply_text_start : Folded
  unfolding before_dash
  apply_text_start = (
    effect true,
    parts
        ++ field "type" (text (block_name chunk_type))
            (field "text" (text "") (field "state" (text "streaming") end))
          ∷ [],
  )

  -- part["text"] with the delta after it
  abbrev pub with_text : Fields → Fields
  with_text part =
      set_key "text"
        (text (
          concat (text_or_empty py (get_key "text" part))
            (text_or_empty py (get_key "delta" chunk))))
        part

  -- The provider's metadata of a part of reasoning.
  abbrev pub merge_provider : Fields → Bool × Fields
  merge_provider part =
      if block_name chunk_type == "reasoning"
      then merge_metadata py part "providerMetadata" (get_key "providerMetadata" chunk)
      else (false, part)

  abbrev pub new_text : Fields
  new_text =
      field "type" (text (block_name chunk_type))
        (field "text" (or_empty (get_key "delta" chunk)) (field "state" (text "streaming") end))

  unfoldable pub apply_text_delta : Folded
  unfolding before_dash find_last_part update_last merge_metadata concat
  apply_text_delta = elim (find_last_part (block_name chunk_type) parts) [
    | none ↦ (effect true, parts ++ (merge_provider new_text).1 ∷ [])
    | some part ↦ (
      effect true,
      update_last (has_type (block_name chunk_type)) (λ part'. (merge_provider (with_text part')).1)
          parts,
    )
  ]

  unfoldable pub apply_text_end : Folded
  unfolding before_dash find_last_part update_last merge_metadata
  apply_text_end = elim (find_last_part (block_name chunk_type) parts) [
    | none ↦ (effect false, parts)
    | some part ↦
        let changed = not (is_state "done" part) in
        let merged = (merge_provider (set_key "state" (text "done") part)).0 in
        (
          effect (changed || merged),
          update_last (has_type (block_name chunk_type))
              (λ part'. (merge_provider (set_key "state" (text "done") part')).1) parts,
        )
  ]

  unfoldable pub apply_file : Folded
  apply_file = (
    effect true,
    parts
        ++ copy_value "providerMetadata" (get_key "providerMetadata" chunk) (
            copy_value "filename" (get_key "filename" chunk) (
              field "type" (text "file") (
                field "mediaType" (value_of (get_key "mediaType" chunk))
                  (field "url" (value_of (get_key "url" chunk)) end))))
          ∷ [],
  )

  unfoldable pub source_part : Fields
  source_part =
      let source_id = value_of (get_key "sourceId" chunk) in
      let metadata = get_key "providerMetadata" chunk in
      if chunk_type == "source-url"
      then copy_value "providerMetadata" metadata (
          copy_value "title" (get_key "title" chunk) (
            field "type" (text chunk_type)
              (field "sourceId" source_id (field "url" (value_of (get_key "url" chunk)) end))))
      else copy_value "providerMetadata" metadata (
          copy_value "filename" (get_key "filename" chunk) (
            field "type" (text chunk_type) (
              field "sourceId" source_id (
                field "mediaType" (value_of (get_key "mediaType" chunk))
                  (field "title" (value_of (get_key "title" chunk)) end)))))

  unfoldable pub apply_source : Folded
  unfolding source_part
  apply_source = (effect true, parts ++ source_part ∷ [])

  unfoldable pub apply_step_start : Folded
  apply_step_start = (effect true, parts ++ field "type" (text "step-start") end ∷ [])

  -- The part of a chunk of data that has an id.
  abbrev pub is_data : Json → Fields → Bool
  is_data id part = has_type chunk_type part && is_value py (get_key "id" part) id

  abbrev pub with_data : Fields → Fields
  with_data part = set_key "data" (value_of (get_key "data" chunk)) part

  abbrev pub new_data : Fields
  new_data =
      copy_value "id" (get_key "id" chunk)
        (field "type" (text chunk_type) (field "data" (value_of (get_key "data" chunk)) end))

  -- Where the chunk has no id, or no part has it, it is a part of its own.
  unfoldable pub apply_data : Folded
  unfolding find_last update_last
  apply_data =
      if is_true (get_key "transient" chunk)
      then (effect false, parts)
      else if is_null (get_key "id" chunk)
      then (effect true, parts ++ new_data ∷ [])
      else elim (find_last (is_data (value_of (get_key "id" chunk))) parts) [
        | none ↦ (effect true, parts ++ new_data ∷ [])
        | some part ↦ (
          effect (not (py.same (value_of (get_key "data" part)) (value_of (get_key "data" chunk)))),
          update_last (is_data (value_of (get_key "id" chunk))) with_data parts,
        )
      ]

  -- The terminal error; the text of one that has none is that of {"type":"error"}.
  abbrev pub error_text : Option Json → String
  error_text (some (text s)) = s
  error_text _ = "{\"type\":\"error\"}"

  abbrev pub apply_error : Folded
  apply_error = (
    record (effect false) { terminal_error = some (error_text (get_key "errorText" chunk)) },
    parts,
  )

  -- The handlers that work on the parts alone.
  unfoldable pub run_handler : Handler → Folded
  run_handler text_start = apply_text_start
  run_handler text_delta = apply_text_delta
  run_handler text_end = apply_text_end
  run_handler file = apply_file
  run_handler source = apply_source
  run_handler tool_input_start = apply_tool_input_start py chunk parts
  run_handler tool_input_delta = apply_tool_input_delta py chunk parts
  run_handler tool_input_available = apply_tool_input_available py chunk parts
  run_handler tool_input_error = apply_tool_input_error py chunk parts
  run_handler tool_approval_request = apply_tool_approval_request py chunk parts
  run_handler tool_output_denied = apply_tool_output_denied py chunk parts
  run_handler tool_output_available = apply_tool_output_available py chunk parts
  run_handler tool_output_error = apply_tool_output_error py chunk parts
  run_handler step_start = apply_step_start
  run_handler message_chunk = (effect false, parts)
  run_handler finish_step = (effect false, parts)
  run_handler error_chunk = apply_error
