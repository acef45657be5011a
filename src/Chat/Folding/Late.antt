-- ===== src/Chat/Folding/Late.antt =====
-- A chunk that comes too late for its tool call would have changed nothing.
use agents_python_cloudflare.Prelude.{
  ◌≡◌, refl, ap, String, true, false, Option, some, ◌==◌, arith, eq_iff, Bool-cases, Option-cases,
  inl, inr,
}
use agents_python_cloudflare.Json.{Json, text, Fields, get_key, as_text, is_text_of}
use agents_python_cloudflare.Chat.Folding.Parts.{Builtins, find_tool_part}
use agents_python_cloudflare.Chat.Folding.Tools.{
  effect, Folded, is_state, is_resolved, is_settled, is_final_output, apply_tool_input_start,
  apply_tool_input_delta, apply_tool_input_available, apply_tool_input_error,
  apply_tool_approval_request, apply_tool_output_denied, apply_tool_output_available,
  apply_tool_output_error,
}
use agents_python_cloudflare.Chat.Folding.Chunks.{
  MessageAccumulator, handlers, handler_in, run_handler, Handler,
}
use agents_python_cloudflare.Chat.Folding.Accumulator.{
  handle, apply, is_late, should_suppress, on_parts,
}

module _ (py : Builtins) (chunk : Fields) (a : MessageAccumulator) (part : Fields)
    (found : find_tool_part py a.parts (get_key "toolCallId" chunk) ≡ some part) where
  -- What is asked of a handler: that it does nothing.
  abbrev pub Ignores : Folded → Type 0
  Ignores folded = folded ≡ (effect false, a.parts)

  pub late_start : Ignores (apply_tool_input_start py chunk a.parts)
  unfolding apply_tool_input_start
  late_start = rw (found, apply_tool_input_start) refl

  pub late_delta :
      is_state "input-streaming" part ≡ false → Ignores (apply_tool_input_delta py chunk a.parts)
  unfolding apply_tool_input_delta
  late_delta h = rw (found, apply_tool_input_delta) (rw h refl)

  pub late_available :
      is_state "input-streaming" part ≡ false
      → Ignores (apply_tool_input_available py chunk a.parts)
  unfolding apply_tool_input_available
  late_available h = rw (found, apply_tool_input_available) (rw h refl)

  pub late_input_error : is_resolved part ≡ true → Ignores (apply_tool_input_error py chunk a.parts)
  unfolding apply_tool_input_error
  late_input_error h = rw (found, apply_tool_input_error) (rw h refl)

  pub late_request : is_settled part ≡ true → Ignores (apply_tool_approval_request py chunk a.parts)
  unfolding apply_tool_approval_request
  late_request h = rw (found, apply_tool_approval_request) (rw h refl)

  pub late_denied : is_settled part ≡ true → Ignores (apply_tool_output_denied py chunk a.parts)
  unfolding apply_tool_output_denied
  late_denied h = rw (found, apply_tool_output_denied) (rw h refl)

  pub late_output :
      is_final_output part ≡ true → Ignores (apply_tool_output_available py chunk a.parts)
  unfolding apply_tool_output_available
  late_output h = rw (found, apply_tool_output_available) (rw h refl)

  pub late_output_error :
      is_final_output part ≡ true → Ignores (apply_tool_output_error py chunk a.parts)
  unfolding apply_tool_output_error
  late_output_error h = rw (found, apply_tool_output_error) (rw h refl)

  module _ (chunk_type : String) where
    unfoldable IsIgnored : Type 0
    IsIgnored = handle py chunk chunk_type (handler_in chunk_type handlers) a ≡ (effect false, a)

    -- A chunk of the type has that handler.
    ignored :
        (name : String) (handler : Handler)
        → (chunk_type == name) ≡ true
        → handler_in name handlers ≡ some handler
        → handle py chunk name (some handler) a ≡ (effect false, a)
        → IsIgnored
    unfolding IsIgnored
    ignored name handler e known does =
        let s : chunk_type ≡ name = (eq_iff chunk_type name).0 e in rw (s, known) does

    if_type :
        (name : String)
        → ((chunk_type == name) ≡ true → IsIgnored)
        → ((chunk_type == name) ≡ false → IsIgnored)
        → IsIgnored
    if_type name p q = elim (Bool-cases (chunk_type == name)) [ inl e ↦ p e | inr e ↦ q e ]

    late_handled :
        is_late py chunk chunk_type part ≡ true
        → ((chunk_type == "tool-input-error") ≡ true → is_state "approval-responded" part ≡ false)
        → IsIgnored
    unfolding is_late handler_in run_handler
    late_handled late unanswered =
        if_type "tool-input-start"
          (λ e.
            ignored "tool-input-start" Handler.tool_input_start e refl
              (ap (on_parts py chunk a) late_start))
          (λ n1.
            if_type "tool-input-delta"
              (λ e.
                ignored "tool-input-delta" Handler.tool_input_delta e refl
                  (ap (on_parts py chunk a) (late_delta (ground arith))))
              (λ n2.
                if_type "tool-input-available"
                  (λ e.
                    ignored "tool-input-available" Handler.tool_input_available e refl
                      (ap (on_parts py chunk a) (late_available (ground arith))))
                  (λ n3.
                    if_type "tool-input-error"
                      (λ e. ignored "tool-input-error" Handler.tool_input_error e refl (
                        ap (on_parts py chunk a)
                          (late_input_error (let u = unanswered e in ground arith))))
                      (λ n4.
                        if_type "tool-output-available"
                          (λ e.
                            ignored "tool-output-available" Handler.tool_output_available e refl
                              (ap (on_parts py chunk a) (late_output (ground arith))))
                          (λ n5.
                            if_type "tool-output-error"
                              (λ e.
                                ignored "tool-output-error" Handler.tool_output_error e refl
                                  (ap (on_parts py chunk a) (late_output_error (ground arith))))
                              (λ n6.
                                if_type "tool-output-denied"
                                  (λ e.
                                    ignored "tool-output-denied" Handler.tool_output_denied e refl
                                      (ap (on_parts py chunk a) (late_denied (ground arith))))
                                  (λ n7.
                                    if_type "tool-approval-request"
                                      (λ e.
                                        ignored "tool-approval-request"
                                          Handler.tool_approval_request e refl
                                          (ap (on_parts py chunk a) (late_request (ground arith))))
                                      (λ n8. absurd (ground arith)))))))))

pub as_text-some : (o : Option Json) (s : String) → as_text o ≡ some s → o ≡ some (text s)
as_text-some (some (text t)) s h = let e : t ≡ s = cc in ap (λ u. some (text u)) e
as_text-some _ s h = absurd (cc)

-- A chunk that is suppressed would have changed nothing: applied all the same, it is handled and leaves
-- the parts and the message as they are. Left out is the error of a tool's input where the call's part
-- has an answered approval.
pub should_suppress-apply :
    (py : Builtins) (chunk : Fields) (a : MessageAccumulator)
    → should_suppress py chunk a ≡ true
    → ((part : Fields)
        → find_tool_part py a.parts (get_key "toolCallId" chunk) ≡ some part
        → is_text_of "tool-input-error" (get_key "type" chunk) ≡ true
        → is_state "approval-responded" part ≡ false)
    → apply py chunk a ≡ (effect false, a)
unfolding should_suppress apply
should_suppress-apply py chunk a h unanswered =
    elim (Option-cases (as_text (get_key "toolCallId" chunk))) [
      | inl no_id ↦ absurd (let x : false ≡ true = rw (no_id, should_suppress) at h in cc)
      | inr (id, is_id) ↦ elim (Option-cases (find_tool_part py a.parts (some (text id)))) [
        | inl no_part ↦ absurd (
            let x : false ≡ true =
              rw (no_part, should_suppress) at (rw (is_id, should_suppress) at h) in
            cc)
        | inr (part, is_part) ↦ elim (Option-cases (as_text (get_key "type" chunk))) [
          | inl no_type ↦ absurd (
              let x : false ≡ true =
                rw no_type at
                  (rw (is_part, should_suppress) at (rw (is_id, should_suppress) at h)) in
              cc)
          | inr (chunk_type, is_type) ↦
              let found : find_tool_part py a.parts (get_key "toolCallId" chunk) ≡ some part =
                rw (as_text-some (get_key "toolCallId" chunk) id is_id) is_part in
              let late : is_late py chunk chunk_type part ≡ true =
                rw is_type at
                  (rw (is_part, should_suppress) at (rw (is_id, should_suppress) at h)) in
              let typed : get_key "type" chunk ≡ some (text chunk_type) =
                as_text-some (get_key "type" chunk) chunk_type is_type in
              rw (is_type, apply)
                (unfold IsIgnored in
                  late_handled py chunk a part found chunk_type late
                    (λ e. unanswered part found (rw typed e)))
        ]
      ]
    ]
