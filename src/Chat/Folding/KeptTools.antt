-- ===== src/Chat/Folding/KeptTools.antt =====
-- A tool's part whose output is final, under chunks about tool calls: its own call's and others'.
use agents_python_cloudflare.Prelude.{
  ◌≡◌, ◌⊎◌, refl, sym, ◌∙◌, String, Bool, true, false, Option, none, some, [], ◌∷◌, ◌++◌,
  Bool-cases, inl, inr, if◌then◌else◌,
}
use agents_python_cloudflare.Json.{
  Json, text, Fields, get_key, set_key, pop_key, has_key, is_text_of,
}
use agents_python_cloudflare.Json.Laws.{set_key-other, pop_key-other}
use agents_python_cloudflare.Chat.Folding.Parts.{Builtins, find_last, is_call, find_tool_part}
use agents_python_cloudflare.Chat.Folding.Tools.{
  apply_tool_input_start, apply_tool_input_delta, apply_tool_input_available,
  apply_tool_input_error, apply_tool_approval_request, apply_tool_output_denied,
  apply_tool_output_available, apply_tool_output_error, FoldEffect, effect, Folded, is_state,
  is_resolved, is_settled, is_final_output, change_part, with_delta, with_error, with_input_error,
  requested, with_output, with_output_error,
}
use agents_python_cloudflare.Chat.Folding.Chunks.{MessageAccumulator}
use agents_python_cloudflare.Chat.Folding.Late.{
  late_start, late_delta, late_available, late_input_error, late_request, late_denied, late_output,
  late_output_error,
}
use agents_python_cloudflare.Chat.Folding.Searching.{
  find_last-update_last, find_last-append, find_last-passes, copy_value-other,
}
use agents_python_cloudflare.Chat.Folding.Calls.{chunk_id, tool_part-id, update_keys-id}
use agents_python_cloudflare.Chat.Folding.Ids.{
  IsEquality, of_call, is_id, value_other, other_id, apart,
}
use agents_python_cloudflare.Chat.Folding.Final.{final-streaming, final-resolved, final-settled}

-- What a handler of a tool's chunk makes of the parts, for a call whose part has its final output.
module _ (py : Builtins) (eq : IsEquality py) (id : String) (chunk : Fields)
    (a : MessageAccumulator) (part : Fields)
    (found : find_last (of_call py eq id) a.parts ≡ some part)
    (final : is_final_output part ≡ true) where
  -- The part is still the one that is found.
  pub record Keeps (x : Folded) : Type 0 where
    pub kept : find_last (of_call py eq id) x.1 ≡ some part

  pub unchanged : Keeps (effect false, a.parts)
  unchanged = record { kept = found }

  keeps_if : (b : Bool) {x y : Folded} → Keeps x → Keeps y → Keeps (if b then x else y)
  keeps_if true p q = p
  keeps_if false p q = q

  keeps_part :
      (o : Option Fields) {n : Folded} {s : Fields → Folded}
      → Keeps n
      → ((p : Fields) → Keeps (s p))
      → Keeps (elim o [ none ↦ n | some p ↦ s p ])
  keeps_part none p q = p
  keeps_part (some x) p q = q x

  -- For a chunk of the call, a handler that does nothing; for one of another call, one that keeps it.
  pub by_call :
      {x : Folded}
      → (find_tool_part py a.parts (get_key "toolCallId" chunk) ≡ some part
          → x ≡ (effect false, a.parts))
      → (is_text_of id (get_key "toolCallId" chunk) ≡ false → Keeps x)
      → Keeps x
  unfolding find_tool_part
  by_call same other = elim (Bool-cases (is_text_of id (get_key "toolCallId" chunk))) [
    | inl e ↦
        (let e' = is_id id (get_key "toolCallId" chunk) e in rw (same (rw e' found)) unchanged)
    | inr n ↦ other n
  ]

  module _ (other : is_text_of id (get_key "toolCallId" chunk) ≡ false) where
    chunk-other : py.same (chunk_id py chunk "" false) (text id) ≡ false
    chunk-other = value_other py eq id (get_key "toolCallId" chunk) other

    appended :
        (x : Fields) (e : FoldEffect)
        → get_key "toolCallId" x ≡ some (chunk_id py chunk "" false)
        → Keeps (e, a.parts ++ x ∷ [])
    appended x e h = record {
      kept = find_last-append _ a.parts x (other_id py eq id x _ h chunk-other) ∙ found;
    }

    changed :
        (f : Fields → Fields) (e : FoldEffect)
        → ((x : Fields)
            → (get_key "toolCallId" (f x) ≡ some (chunk_id py chunk "" false))
              ⊎ (get_key "toolCallId" (f x) ≡ get_key "toolCallId" x))
        → Keeps (e, change_part py chunk a.parts f)
    unfolding change_part
    changed f e same = record {
      kept =
          find_last-update_last _ _ f a.parts part
            (λ x hit. elim (same x) [
              | inl e ↦ other_id py eq id (f x) _ e chunk-other ∙ sym (apart py eq id _ x other hit)
              | inr e ↦ rw e refl
            ])
            (elim (Bool-cases (is_call py (get_key "toolCallId" chunk) part)) [
              | inl hit ↦ absurd (
                  let n = apart py eq id _ part other hit in
                  let y = find_last-passes _ a.parts part found in cc)
              | inr miss ↦ miss
            ])
            found;
    }

  abbrev looked_up : Option Fields
  looked_up = find_tool_part py a.parts (get_key "toolCallId" chunk)

  pub start_keeps : Keeps (apply_tool_input_start py chunk a.parts)
  unfolding apply_tool_input_start
  start_keeps =
      by_call (λ it. late_start py chunk a part it)
        (λ other.
          keeps_part looked_up (appended other _ _ (tool_part-id py chunk "input-streaming" false))
            (λ p. unchanged))

  delta_id :
      (x : Fields) → get_key "toolCallId" (with_delta py chunk a.parts x) ≡ get_key "toolCallId" x
  unfolding with_delta
  delta_id x = go (has_key "inputTextDelta" chunk) (has_key "input" chunk) _ _
    where
      go :
          (b c : Bool) (u v : Json)
          → get_key "toolCallId"
              (if b then set_key "input" u x else if c then set_key "input" v x else x)
            ≡ get_key "toolCallId" x
      go true c u v = set_key-other "toolCallId" "input" u x refl
      go false true u v = set_key-other "toolCallId" "input" v x refl
      go false false u v = refl

  pub delta_keeps : Keeps (apply_tool_input_delta py chunk a.parts)
  unfolding apply_tool_input_delta
  delta_keeps =
      by_call (λ it. late_delta py chunk a part it (final-streaming part final))
        (λ other. keeps_part looked_up unchanged (λ p.
          keeps_if (is_state "input-streaming" p) (changed other _ _ (λ x. inr (delta_id x)))
            unchanged))

  pub available_keeps : Keeps (apply_tool_input_available py chunk a.parts)
  unfolding apply_tool_input_available
  available_keeps =
      by_call (λ it. late_available py chunk a part it (final-streaming part final))
        (λ other.
          keeps_part looked_up (appended other _ _ (tool_part-id py chunk "input-available" true))
            (λ p.
              keeps_if (is_state "input-streaming" p)
                (changed other _ _ (update_keys-id py chunk "input-available" true)) unchanged))

  input_error_id :
      (x : Fields)
      → get_key "toolCallId" (with_input_error py chunk a.parts x) ≡ get_key "toolCallId" x
  unfolding with_input_error with_error
  input_error_id x =
      set_key-other "toolCallId" "errorText" _ _ refl
      ∙ copy_value-other "toolCallId" "callProviderMetadata" _ _ refl
      ∙ copy_value-other "toolCallId" "providerExecuted" _ _ refl
      ∙ set_key-other "toolCallId" "input" _ _ refl
      ∙ set_key-other "toolCallId" "state" _ x refl

  pub input_error_keeps : Keeps (apply_tool_input_error py chunk a.parts)
  unfolding apply_tool_input_error with_error
  input_error_keeps =
      by_call (λ it. late_input_error py chunk a part it (final-resolved part final))
        (λ other.
          keeps_part looked_up
            (appended other _ _ (
              set_key-other "toolCallId" "errorText" _ _ refl
              ∙ tool_part-id py chunk "output-error" true))
            (λ p.
              keeps_if (is_resolved p) unchanged (changed other _ _ (λ x. inr (input_error_id x)))))

  request_id :
      (x : Fields) → get_key "toolCallId" (requested py chunk a.parts x) ≡ get_key "toolCallId" x
  request_id x =
      set_key-other "toolCallId" "approval" _ _ refl ∙ set_key-other "toolCallId" "state" _ x refl

  pub request_keeps : Keeps (apply_tool_approval_request py chunk a.parts)
  unfolding apply_tool_approval_request
  request_keeps =
      by_call (λ it. late_request py chunk a part it (final-settled part final))
        (λ other.
          keeps_part looked_up unchanged
            (λ p. keeps_if (is_settled p) unchanged (changed other _ _ (λ x. inr (request_id x)))))

  pub denied_keeps : Keeps (apply_tool_output_denied py chunk a.parts)
  unfolding apply_tool_output_denied
  denied_keeps =
      by_call (λ it. late_denied py chunk a part it (final-settled part final))
        (λ other. keeps_part looked_up unchanged (λ p.
          keeps_if (is_settled p) unchanged
            (changed other _ _ (λ x. inr (set_key-other "toolCallId" "state" _ x refl)))))

  output_id :
      (x : Fields) → get_key "toolCallId" (with_output py chunk a.parts x) ≡ get_key "toolCallId" x
  unfolding with_output
  output_id x =
      preliminary_id (has_key "preliminary" chunk) _ _ _
      ∙ pop_key-other "toolCallId" "errorText" _ refl
      ∙ set_key-other "toolCallId" "output" _ _ refl
      ∙ set_key-other "toolCallId" "state" _ x refl
    where
      preliminary_id :
          (b c : Bool) (v : Json) (x : Fields)
          → get_key "toolCallId"
              (if b then set_key "preliminary" v x else if c then pop_key "preliminary" x else x)
            ≡ get_key "toolCallId" x
      preliminary_id true c v x = set_key-other "toolCallId" "preliminary" v x refl
      preliminary_id false true v x = pop_key-other "toolCallId" "preliminary" x refl
      preliminary_id false false v x = refl

  pub output_keeps : Keeps (apply_tool_output_available py chunk a.parts)
  unfolding apply_tool_output_available
  output_keeps =
      by_call (λ it. late_output py chunk a part it final)
        (λ other. keeps_part looked_up unchanged (λ p.
          keeps_if (is_final_output p) unchanged (changed other _ _ (λ x. inr (output_id x)))))

  output_error_id :
      (x : Fields)
      → get_key "toolCallId" (with_output_error py chunk a.parts x) ≡ get_key "toolCallId" x
  unfolding with_output_error with_error
  output_error_id x =
      pop_key-other "toolCallId" "preliminary" _ refl
      ∙ pop_key-other "toolCallId" "output" _ refl
      ∙ set_key-other "toolCallId" "errorText" _ _ refl
      ∙ set_key-other "toolCallId" "state" _ x refl

  pub output_error_keeps : Keeps (apply_tool_output_error py chunk a.parts)
  unfolding apply_tool_output_error
  output_error_keeps =
      by_call (λ it. late_output_error py chunk a part it final)
        (λ other. keeps_part looked_up unchanged (λ p.
          keeps_if (is_final_output p) unchanged
            (changed other _ _ (λ x. inr (output_error_id x)))))
