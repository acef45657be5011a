-- ===== src/Chat/Folding/Tools.antt =====
-- The handlers of chunks about tool calls.
use agents_python_cloudflare.Prelude.{
  String, Bool, true, false, ◌&&◌, ◌||◌, not, Option, none, some, List, [], ◌∷◌, ◌++◌,
  if◌then◌else◌,
}
use agents_python_cloudflare.Json.{
  Json, text, object, Fields, get_key, set_key, pop_key, update_keys, has_key, concat, is_text_of,
  is_true,
}
use agents_python_cloudflare.Chat.Folding.Parts.{
  Builtins, update_last, is_call, find_tool_part, normalize_tool_input, text_or_empty, value_of,
  copy_value, approval_record, tool_part,
}

-- What a handler says of its chunk.
pub record FoldEffect : Type 0 where
  pub handled : Bool
  pub changed : Bool
  pub persist_now : Bool
  pub terminal_error : Option String

abbrev pub effect : Bool → FoldEffect
effect changed = record {
  handled = true;
  changed = changed;
  persist_now = false;
  terminal_error = none;
}

-- The state of a part, where that is one of some.
abbrev pub is_state : String → Fields → Bool
is_state state part = is_text_of state (get_key "state" part)

abbrev pub is_failed : Fields → Bool
is_failed part = is_state "output-error" part || is_state "output-denied" part

abbrev pub is_resolved : Fields → Bool
is_resolved part = is_state "output-available" part || is_failed part

abbrev pub is_settled : Fields → Bool
is_settled part = is_resolved part || is_state "approval-responded" part

-- An output that no later one replaces, nor an error.
abbrev pub is_final_output : Fields → Bool
is_final_output part =
    is_failed part
    || (is_state "output-available" part && not (is_true (get_key "preliminary" part)))

abbrev pub Folded : Type 0
Folded = FoldEffect × List Fields

module _ (py : Builtins) (chunk : Fields) (parts : List Fields) where
  abbrev pub call_id : Option Json
  call_id = get_key "toolCallId" chunk

  -- The part of the chunk's call is changed in place.
  unfoldable pub change_part : (Fields → Fields) → List Fields
  change_part f = update_last (is_call py call_id) f parts

  unfoldable pub apply_tool_input_start : Folded
  apply_tool_input_start = elim (find_tool_part py parts call_id) [
    | some part ↦ (effect false, parts)
    | none ↦ (effect true, parts ++ tool_part py chunk "input-streaming" false ∷ [])
  ]

  abbrev text_of : Option Json → String
  text_of (some (text s)) = s
  text_of _ = ""

  unfoldable pub with_delta : Fields → Fields
  with_delta part =
      if has_key "inputTextDelta" chunk
      then set_key "input"
          (text (
            concat (text_of (get_key "input" part))
              (text_or_empty py (get_key "inputTextDelta" chunk))))
          part
      else if has_key "input" chunk
      then set_key "input" (value_of (get_key "input" chunk)) part
      else part

  unfoldable pub apply_tool_input_delta : Folded
  unfolding change_part with_delta
  apply_tool_input_delta = elim (find_tool_part py parts call_id) [
    | none ↦ (effect false, parts)
    | some part ↦
        if is_state "input-streaming" part
        then (effect true, change_part with_delta)
        else (effect false, parts)
  ]

  unfoldable pub apply_tool_input_available : Folded
  unfolding change_part
  apply_tool_input_available =
      let new : Fields = tool_part py chunk "input-available" true in
      elim (find_tool_part py parts call_id) [
        | none ↦ (effect true, parts ++ new ∷ [])
        | some part ↦
            if is_state "input-streaming" part
            then (effect true, change_part (λ part'. update_keys part' new))
            else (effect false, parts)
      ]

  unfoldable pub with_error : Fields → Fields
  with_error part = set_key "errorText" (value_of (get_key "errorText" chunk)) part

  unfoldable pub with_input_error : Fields → Fields
  unfolding with_error
  with_input_error part = with_error (
      copy_value "callProviderMetadata" (get_key "providerMetadata" chunk) (
        copy_value "providerExecuted" (get_key "providerExecuted" chunk) (
          set_key "input" (object (normalize_tool_input py (get_key "input" chunk)))
            (set_key "state" (text "output-error") part))))

  unfoldable pub apply_tool_input_error : Folded
  unfolding change_part with_input_error with_error
  apply_tool_input_error = elim (find_tool_part py parts call_id) [
    | none ↦ (effect true, parts ++ with_error (tool_part py chunk "output-error" true) ∷ [])
    | some part ↦
        if is_resolved part
        then (effect false, parts)
        else (effect true, change_part with_input_error)
  ]

  abbrev pub requested : Fields → Fields
  requested part =
      set_key "approval" (object (approval_record chunk))
        (set_key "state" (text "approval-requested") part)

  unfoldable pub apply_tool_approval_request : Folded
  unfolding change_part
  apply_tool_approval_request = elim (find_tool_part py parts call_id) [
    | none ↦ (effect false, parts)
    | some part ↦
        if is_settled part
        then (effect false, parts)
        else (record (effect true) { persist_now = true }, change_part requested)
  ]

  unfoldable pub apply_tool_output_denied : Folded
  unfolding change_part
  apply_tool_output_denied = elim (find_tool_part py parts call_id) [
    | none ↦ (effect false, parts)
    | some part ↦
        if is_settled part
        then (effect false, parts)
        else (effect true, change_part (set_key "state" (text "output-denied")))
  ]

  -- `preliminary`, as the chunk has it, or not at all where it was true
  abbrev pub with_preliminary : Fields → Fields
  with_preliminary part =
      if has_key "preliminary" chunk
      then set_key "preliminary" (value_of (get_key "preliminary" chunk)) part
      else if is_true (get_key "preliminary" part)
      then pop_key "preliminary" part
      else part

  unfoldable pub with_output : Fields → Fields
  with_output part = with_preliminary (
      pop_key "errorText" (
        set_key "output" (value_of (get_key "output" chunk))
          (set_key "state" (text "output-available") part)))

  unfoldable pub apply_tool_output_available : Folded
  unfolding change_part with_output
  apply_tool_output_available = elim (find_tool_part py parts call_id) [
    | none ↦ (effect false, parts)
    | some part ↦
        if is_final_output part
        then (effect false, parts)
        else (effect true, change_part with_output)
  ]

  unfoldable pub with_output_error : Fields → Fields
  unfolding with_error
  with_output_error part =
      pop_key "preliminary"
        (pop_key "output" (with_error (set_key "state" (text "output-error") part)))

  unfoldable pub apply_tool_output_error : Folded
  unfolding change_part with_output_error
  apply_tool_output_error = elim (find_tool_part py parts call_id) [
    | none ↦ (effect false, parts)
    | some part ↦
        if is_final_output part
        then (effect false, parts)
        else (effect true, change_part with_output_error)
  ]
