-- ===== src/Chat/Folding/Examples.antt =====
-- A tool call whose output has come, and an error of it that comes late.
use agents_python_cloudflare.Prelude.{
  String, ◌≡◌, refl, Bool, true, false, none, some, [], ◌∷◌, ◌==◌,
}
use agents_python_cloudflare.Json.{
  Json, null, boolean, int, float, array, object, as_text, text, Fields, end, field, get_key,
  is_text_of,
}
use agents_python_cloudflare.Chat.Folding.Parts.{Builtins, find_tool_part, find_last}
use agents_python_cloudflare.Chat.Folding.Tools.{effect, is_state, is_final_output}
use agents_python_cloudflare.Chat.Folding.Chunks.{MessageAccumulator}
use agents_python_cloudflare.Chat.Folding.Accumulator.{apply, should_suppress, is_late}
use agents_python_cloudflare.Tasks.Policy.{starts_with}
use agents_python_cloudflare.Chat.Folding.Ids.{IsEquality}
use agents_python_cloudflare.Chat.Folding.KeptParts.{is_tool_type_of}
use agents_python_cloudflare.Chat.Folding.Kept.{apply-final}
use agents_python_cloudflare.Chat.Folding.Late.{should_suppress-apply}

abbrev same_text : Json → Json → Bool
same_text (text s) (text t) = s == t
same_text u v = false

abbrev builtins : Builtins
builtins = record { same = same_text; shown = λ v. ""; strip = λ s. s; loads = λ s. none }

abbrev finished : Fields
finished = field "type" (text "tool-search") (
    field "toolCallId" (text "call-1")
      (field "state" (text "output-available") (field "output" (text "found") end)))

abbrev accumulator : MessageAccumulator
accumulator = record { parts = finished ∷ []; message = none }

abbrev late_error : Fields
late_error =
    field "type" (text "tool-output-error")
      (field "toolCallId" (text "call-1") (field "errorText" (text "late") end))

is_suppressed : should_suppress builtins late_error accumulator ≡ true
unfolding should_suppress get_key find_tool_part find_last is_late
is_suppressed = refl

no_input_error :
    (part : Fields)
    → find_tool_part builtins accumulator.parts (get_key "toolCallId" late_error) ≡ some part
    → is_text_of "tool-input-error" (get_key "type" late_error) ≡ true
    → is_state "approval-responded" part ≡ false
unfolding get_key
no_input_error part found h = absurd (cc)

should_suppress-apply_example : apply builtins late_error accumulator ≡ (effect false, accumulator)
should_suppress-apply_example =
    should_suppress-apply builtins late_error accumulator is_suppressed no_input_error

builtins-IsEquality : IsEquality builtins
builtins-IsEquality = record { texts = λ s t. refl; kinds = kinds }
  where
    kinds :
        (v : Json) (t : String)
        → as_text (some v) ≡ none
        → (same_text v (text t) ≡ false) × (same_text (text t) v ≡ false)
    kinds null t h = (refl, refl)
    kinds (boolean b) t h = (refl, refl)
    kinds (int n) t h = (refl, refl)
    kinds (float s) t h = (refl, refl)
    kinds (text s) t h = absurd (cc)
    kinds (array items) t h = (refl, refl)
    kinds (object fs) t h = (refl, refl)

is_found : find_tool_part builtins accumulator.parts (some (text "call-1")) ≡ some finished
unfolding find_tool_part find_last get_key
is_found = refl

is_final : is_final_output finished ≡ true
unfolding get_key
is_final = refl

is_of_tool : is_tool_type_of (get_key "type" finished) ≡ true
unfolding get_key starts_with
is_of_tool = refl

apply-final_example :
    find_tool_part builtins (apply builtins late_error accumulator).1.parts (some (text "call-1"))
    ≡ some finished
apply-final_example =
    apply-final builtins builtins-IsEquality "call-1" late_error accumulator finished is_found
      is_final is_of_tool
