-- ===== src/Chat/Folding/Kept.antt =====
-- A tool's part whose output is final, under any chunk.
use agents_python_cloudflare.Prelude.{
  ◌≡◌, refl, String, Bool, true, false, ◌&&◌, not, Option, none, some, List, [], ◌∷◌, ◌==◌, arith,
  eq_iff, Bool-cases, Option-cases, inl, inr, if◌then◌else◌,
}
use agents_python_cloudflare.Json.{text, Fields, get_key, as_text}
use agents_python_cloudflare.Tasks.Policy.{starts_with}
use agents_python_cloudflare.Chat.Folding.Parts.{Builtins, find_last, find_tool_part}
use agents_python_cloudflare.Chat.Folding.Tools.{is_final_output}
use agents_python_cloudflare.Chat.Folding.Chunks.{
  MessageAccumulator, Handler, handlers, handler_in, run_handler, block_name, before_dash,
  apply_data,
}
use agents_python_cloudflare.Chat.Folding.Accumulator.{
  apply, handle, on_parts, apply_message_chunk, unhandled,
}
use agents_python_cloudflare.Chat.Folding.Ids.{IsEquality, of_call}
use agents_python_cloudflare.Chat.Folding.KeptTools.{
  start_keeps, delta_keeps, available_keeps, input_error_keeps, request_keeps, denied_keeps,
  output_keeps, output_error_keeps,
}
use agents_python_cloudflare.Chat.Folding.KeptParts.{
  is_tool_type, is_tool_type_of, data-is_tool_type, file_keeps, source_keeps, step_keeps,
  text_start_keeps, text_delta_keeps, text_end_keeps, data_keeps,
}

-- The blocks of text are none of tools.
abbrev is_text_handler : Handler → Bool
is_text_handler Handler.text_delta = true
is_text_handler Handler.text_end = true
is_text_handler handler = false

abbrev fits : String → Handler → Bool
fits chunk_type handler = not (is_text_handler handler && is_tool_type (block_name chunk_type))

unfoldable all_fit : List (String × Handler) → Bool
all_fit [] = true
all_fit ((name, handler) ∷ rest) = fits name handler && all_fit rest

handler_in-fits :
    (chunk_type : String) (table : List (String × Handler)) (handler : Handler)
    → all_fit table ≡ true
    → handler_in chunk_type table ≡ some handler
    → fits chunk_type handler ≡ true
unfolding handler_in all_fit
handler_in-fits chunk_type [] handler h e = absurd (cc)
handler_in-fits chunk_type ((name, other) ∷ rest) handler h e =
    elim (Bool-cases (name == chunk_type)) [
      | inl same ↦
          let n : name ≡ chunk_type = (eq_iff name chunk_type).0 same in
          let o : some other ≡ some handler = rw same at e in
          let o' : other ≡ handler = cc in
          let f : fits name other ≡ true = ground arith in rw (n, o') at f
      | inr differs ↦ handler_in-fits chunk_type rest handler (ground arith) (rw differs at e)
    ]

handlers_fit : all_fit handlers ≡ true
unfolding all_fit before_dash starts_with
handlers_fit = refl

module _ (py : Builtins) (eq : IsEquality py) (id : String) (chunk : Fields)
    (a : MessageAccumulator) (part : Fields)
    (found : find_last (of_call py eq id) a.parts ≡ some part) (final : is_final_output part ≡ true)
    (tool : is_tool_type_of (get_key "type" part) ≡ true) where
  message_keeps :
      (chunk_type : String)
      → find_last (of_call py eq id) (apply_message_chunk py chunk chunk_type a).1.parts ≡ some part
  unfolding apply_message_chunk
  message_keeps chunk_type = elim (Option-cases a.message) [
    | inl missing ↦ rw (missing, apply_message_chunk) found
    | inr (message, present) ↦ rw (present, apply_message_chunk) found
  ]

  handler_keeps :
      (chunk_type : String) (handler : Handler)
      → fits chunk_type handler ≡ true
      → find_last (of_call py eq id) (handle py chunk chunk_type (some handler) a).1.parts
        ≡ some part
  unfolding run_handler
  handler_keeps t Handler.text_start h =
      (text_start_keeps py eq id t chunk a part found final tool).kept
  handler_keeps t Handler.text_delta h =
      (text_delta_keeps py eq id t chunk a part found final tool (ground arith)).kept
  handler_keeps t Handler.text_end h =
      (text_end_keeps py eq id t chunk a part found final tool (ground arith)).kept
  handler_keeps t Handler.file h = (file_keeps py eq id t chunk a part found final tool).kept
  handler_keeps t Handler.source h = (source_keeps py eq id t chunk a part found final tool).kept
  handler_keeps t Handler.step_start h = (step_keeps py eq id t chunk a part found final tool).kept
  handler_keeps t Handler.tool_input_start h = (start_keeps py eq id chunk a part found final).kept
  handler_keeps t Handler.tool_input_delta h = (delta_keeps py eq id chunk a part found final).kept
  handler_keeps t Handler.tool_input_available h =
      (available_keeps py eq id chunk a part found final).kept
  handler_keeps t Handler.tool_input_error h =
      (input_error_keeps py eq id chunk a part found final).kept
  handler_keeps t Handler.tool_approval_request h =
      (request_keeps py eq id chunk a part found final).kept
  handler_keeps t Handler.tool_output_denied h =
      (denied_keeps py eq id chunk a part found final).kept
  handler_keeps t Handler.tool_output_available h =
      (output_keeps py eq id chunk a part found final).kept
  handler_keeps t Handler.tool_output_error h =
      (output_error_keeps py eq id chunk a part found final).kept
  handler_keeps t Handler.message_chunk h = message_keeps t
  handler_keeps t Handler.finish_step h = found
  handler_keeps t Handler.error_chunk h = found

  by_handler :
      (chunk_type : String) (handler : Option Handler)
      → handler_in chunk_type handlers ≡ handler
      → find_last (of_call py eq id) (handle py chunk chunk_type handler a).1.parts ≡ some part
  by_handler chunk_type (some handler) e =
      handler_keeps chunk_type handler (handler_in-fits chunk_type handlers handler handlers_fit e)
  by_handler chunk_type none e = go (starts_with "data-" chunk_type) refl
    where
      go :
          (b : Bool)
          → starts_with "data-" chunk_type ≡ b
          → find_last
              (of_call py eq id)
              (if b
                then on_parts py chunk a (apply_data py chunk_type chunk a.parts)
                else (unhandled, a)).1.parts
            ≡ some part
      go true data_type =
          (data_keeps py eq id chunk_type chunk a part found final tool
            (data-is_tool_type chunk_type data_type)).kept
      go false other = found

-- Once a tool's part has its final output, it is found by its call's id, unchanged, after any chunk at
-- all, of its own call or another, of a known type or not. A final output is one that is not
-- preliminary, an error or a denial; the part's type is one that tools' parts have, and Python's `==`
-- tells texts apart.
pub apply-final :
    (py : Builtins)
    → IsEquality py
    → (id : String) (chunk : Fields) (a : MessageAccumulator) (part : Fields)
    → find_tool_part py a.parts (some (text id)) ≡ some part
    → is_final_output part ≡ true
    → is_tool_type_of (get_key "type" part) ≡ true
    → find_tool_part py (apply py chunk a).1.parts (some (text id)) ≡ some part
unfolding find_tool_part apply
apply-final py eq id chunk a part found final tool =
    elim (Option-cases (as_text (get_key "type" chunk))) [
      | inl untyped ↦ rw (untyped, apply) found
      | inr (chunk_type, typed) ↦
          rw (typed, apply) (by_handler py eq id chunk a part found final tool chunk_type _ refl)
    ]
