-- ===== src/Sessions/Input.antt =====
-- `_prepare_compaction_input` itself, and the text of a message.
use Prim.Native.Nat.{max}
use agents_python_cloudflare.Prelude.{
  ℕ, ◌+◌, ◌-◌, String, Bool, true, false, Option, none, some, List, [], ◌∷◌, leb, length, take,
  drop, if◌then◌else◌,
}
use agents_python_cloudflare.Json.{
  Json, null, boolean, int, float, text, array, object, Items, nil, cons, Fields, get_key,
  is_text_of, concat,
}
use agents_python_cloudflare.Sessions.Compaction.{
  protect_head, min_tail_messages, parts_of, is_compaction_message, align_boundary_forward,
  find_tail_cut,
}

-- What is taken of the caller and of Python: the estimate of a message's tokens, whether a number of
-- them is over the budget, `math.floor(tokens * 0.2)`, and the text of a number.
pub record Estimates : Type 0 where
  pub estimate_tokens : Fields → ℕ
  pub exceeds : ℕ → Bool
  pub fifth : ℕ → ℕ
  pub number_text : Json → String

pub record CompactionInput : Type 0 where
  pub messages : List Fields
  pub previous_summary : Option String
  pub budget : ℕ

unfoldable pub without_summaries : List Fields → List Fields
unfolding is_compaction_message
without_summaries [] = []
without_summaries (message ∷ rest) =
    let later = without_summaries rest in
    if is_compaction_message message then later else message ∷ later

unfoldable pub first_summary : List Fields → Option Fields
unfolding is_compaction_message
first_summary [] = none
first_summary (message ∷ rest) =
    let later = first_summary rest in if is_compaction_message message then some message else later

-- messages[start:end]
abbrev pub slice : ℕ → ℕ → List Fields → List Fields
slice start end messages = take (end - start) (drop start messages)

module _ (e : Estimates) where
  unfoldable mutual
    pub js_string : Json → String
    js_string null = "null"
    js_string (boolean true) = "true"
    js_string (boolean false) = "false"
    js_string (text s) = s
    js_string (int n) = e.number_text (int n)
    js_string (float s) = e.number_text (float s)
    js_string (array items) = js_items items
    js_string (object fs) = "[object Object]"

    -- The items with commas between them, and after a first one.
    pub js_items : Items → String
    js_items nil = ""
    js_items (cons null items) = js_rest items
    js_items (cons v items) = concat (js_string v) (js_rest items)

    pub js_rest : Items → String
    js_rest nil = ""
    js_rest (cons null items) = concat "," (js_rest items)
    js_rest (cons v items) = concat "," (concat (js_string v) (js_rest items))

  abbrev pub text_of_part : Option Json → String
  text_of_part none = ""
  text_of_part (some null) = ""
  text_of_part (some v) = js_string v

  -- The texts of the parts of text, with line ends between them.
  unfoldable pub part_texts : List Fields → List String
  unfolding js_string
  part_texts [] = []
  part_texts (part ∷ rest) =
      let later = part_texts rest in
      if is_text_of "text" (get_key "type" part)
      then text_of_part (get_key "text" part) ∷ later
      else later

  abbrev pub join_lines : List String → String
  join_lines [] = ""
  join_lines (s ∷ []) = s
  join_lines (s ∷ t ∷ rest) = concat s (concat "\n" (join_lines (t ∷ rest)))

  unfoldable pub message_text : Fields → String
  unfolding part_texts parts_of concat
  message_text message = join_lines (part_texts (parts_of (get_key "parts" message)))

  unfoldable pub total_tokens : List Fields → ℕ
  total_tokens [] = 0
  total_tokens (message ∷ rest) = e.estimate_tokens message + total_tokens rest

  abbrev pub summary_text : Option Fields → Option String
  summary_text none = none
  summary_text (some message) = some (message_text message)

  -- The input of a summary of some messages, unless there are none.
  abbrev pub input_of : List Fields → List Fields → Option CompactionInput
  input_of messages [] = none
  input_of messages (message ∷ rest) = some (record {
    messages = message ∷ rest;
    previous_summary = summary_text (first_summary messages);
    budget = max 100 (e.fifth (total_tokens (message ∷ rest)));
  })

  unfoldable pub prepare_compaction_input : List Fields → Option CompactionInput
  unfolding align_boundary_forward find_tail_cut without_summaries first_summary message_text
      total_tokens
  prepare_compaction_input messages =
      if leb (length messages) (protect_head + min_tail_messages)
      then none
      else let compress_start = align_boundary_forward messages protect_head in
        let compress_end = find_tail_cut messages compress_start e.exceeds e.estimate_tokens in
        if leb compress_end compress_start
        then none
        else input_of messages (without_summaries (slice compress_start compress_end messages))
