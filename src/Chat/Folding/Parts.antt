-- ===== src/Chat/Folding/Parts.antt =====
-- The parts of a message: how one is looked up and built. A part and a chunk are dicts, given by their
-- fields. What Python does on values of any kind is a parameter, `Builtins`.
use agents_python_cloudflare.Prelude.{
  zero, String, Bool, true, false, ◌&&◌, ◌||◌, not, Option, none, some, List, [], ◌∷◌, ◌==◌,
  if◌then◌else◌,
}
use agents_python_cloudflare.Json.{
  Json, null, boolean, int, float, text, array, object, pos, concat, nil, Fields, end, field,
  get_key, set_key, update_keys, is_true, is_null,
}
use agents_python_cloudflare.Tasks.Policy.{starts_with}

-- `==`, `str` on what is no text, `str.strip`, and `json.loads`, with `none` for a ValueError.
pub record Builtins : Type 0 where
  pub same : Json → Json → Bool
  pub shown : Json → String
  pub strip : String → String
  pub loads : String → Option Json

-- bool(value), negated, of a value that may be missing
abbrev pub is_falsy : Option Json → Bool
is_falsy none = true
is_falsy (some null) = true
is_falsy (some (boolean b)) = not b
is_falsy (some (int (pos zero))) = true
is_falsy (some (float s)) = s == "0.0" || s == "-0.0"
is_falsy (some (text s)) = s == ""
is_falsy (some (array nil)) = true
is_falsy (some (object end)) = true
is_falsy (some v) = false

-- The last part that passes a test, and the parts with that one changed.
unfoldable pub find_last : (Fields → Bool) → List Fields → Option Fields
find_last p [] = none
find_last p (part ∷ parts) = elim (find_last p parts) [
  | some later ↦ some later
  | none ↦ if p part then some part else none
]

unfoldable pub update_last : (Fields → Bool) → (Fields → Fields) → List Fields → List Fields
unfolding find_last
update_last p f [] = []
update_last p f (part ∷ parts) =
    let rest = update_last p f parts in
    elim (find_last p parts) [
      | some later ↦ part ∷ rest
      | none ↦ if p part then f part ∷ parts else part ∷ parts
    ]

abbrev pub has_type : String → Fields → Bool
has_type part_type part = elim (get_key "type" part) [ some (text s) ↦ s == part_type | _ ↦ false ]

unfoldable pub find_last_part : String → List Fields → Option Fields
unfolding find_last
find_last_part part_type parts = find_last (has_type part_type) parts

module _ (py : Builtins) where
  abbrev pub is_value : Option Json → Json → Bool
  is_value none v = false
  is_value (some u) v = py.same u v

  -- Whether a part is of the tool call.
  abbrev pub is_call : Option Json → Fields → Bool
  is_call none part = false
  is_call (some id) part = not (is_falsy (some id)) && is_value (get_key "toolCallId" part) id

  unfoldable pub find_tool_part : List Fields → Option Json → Option Fields
  unfolding find_last
  find_tool_part parts tool_call_id = find_last (is_call tool_call_id) parts

  abbrev as_object : Option Json → Fields
  as_object (some (object fs)) = fs
  as_object _ = end

  unfoldable pub normalize_tool_input : Option Json → Fields
  normalize_tool_input (some (object fs)) = fs
  normalize_tool_input (some (text raw)) =
      if starts_with "{" (py.strip raw) then as_object (py.loads raw) else end
  normalize_tool_input _ = end

  -- str(value or ""), and f"{value}"
  abbrev pub text_or_empty : Option Json → String
  text_or_empty none = ""
  text_or_empty (some (text s)) = s
  text_or_empty (some v) = if is_falsy (some v) then "" else py.shown v

  abbrev pub formatted : Option Json → String
  formatted none = "None"
  formatted (some (text s)) = s
  formatted (some v) = py.shown v

  -- target[key] with the fields of the value, if that is a dict; whether that changed it
  unfoldable pub merge_metadata : Fields → String → Option Json → Bool × Fields
  merge_metadata target key (some (object value)) =
      let merged : Json = elim (get_key key target) [
        | some (object current) ↦ object (update_keys current value)
        | _ ↦ object value
      ] in
      if is_value (get_key key target) merged
      then (false, target)
      else (true, set_key key merged target)
  merge_metadata target key value = (false, target)

-- chunk.get(key), with None for a missing one
abbrev pub value_of : Option Json → Json
value_of none = null
value_of (some v) = v

-- part[key] = chunk[source], where that is not None
abbrev pub copy_value : String → Option Json → Fields → Fields
copy_value key value part = if is_null value then part else set_key key (value_of value) part

unfoldable pub approval_record : Fields → Fields
approval_record chunk =
    copy_value "descriptor" (get_key "approvalDescriptor" chunk)
      (copy_value "id" (get_key "approvalId" chunk) end)

module _ (py : Builtins) where
  unfoldable pub tool_type : Fields → String
  tool_type chunk =
      if is_true (get_key "dynamic" chunk)
      then "dynamic-tool"
      else concat "tool-" (formatted py (get_key "toolName" chunk))

  unfoldable pub tool_part : Fields → String → Bool → Fields
  unfolding tool_type normalize_tool_input
  tool_part chunk state include_input =
      let part = field "type" (text (tool_type chunk)) (
        field "toolCallId" (value_of (get_key "toolCallId" chunk)) (
          field "toolName" (value_of (get_key "toolName" chunk))
            (field "state" (text state) end))) in
      let part' =
        if include_input
        then set_key "input" (object (normalize_tool_input py (get_key "input" chunk))) part
        else part in
      copy_value "title" (get_key "title" chunk) (
        copy_value "callProviderMetadata" (get_key "providerMetadata" chunk)
          (copy_value "providerExecuted" (get_key "providerExecuted" chunk) part'))
