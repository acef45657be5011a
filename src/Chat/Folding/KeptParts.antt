-- ===== src/Chat/Folding/KeptParts.antt =====
-- A tool's part whose output is final, under chunks that are not about tool calls.
use agents_python_cloudflare.Prelude.{
  ◌≡◌, refl, ◌∙◌, String, Bool, true, false, ◌||◌, Option, none, some, [], ◌∷◌, ◌++◌, ◌==◌, arith,
  eq_iff, Bool-cases, inl, inr, if◌then◌else◌,
}
use agents_python_cloudflare.Json.{Json, text, Fields, end, field, get_key, is_true, is_null}
use agents_python_cloudflare.Json.Laws.{set_key-other}
use agents_python_cloudflare.Tasks.Policy.{starts_with}
use agents_python_cloudflare.Chat.Folding.Parts.{
  Builtins, find_last, find_last_part, update_last, copy_value, value_of, merge_metadata,
}
use agents_python_cloudflare.Chat.Folding.Tools.{FoldEffect, Folded, is_final_output}
use agents_python_cloudflare.Chat.Folding.Chunks.{
  MessageAccumulator, block_name, merge_provider, new_data, is_data, source_part, apply_text_start,
  apply_text_delta, apply_text_end, apply_file, apply_source, apply_step_start, apply_data,
}
use agents_python_cloudflare.Chat.Folding.Searching.{
  find_last-update_last, find_last-append, copy_value-other, merge_metadata-other,
}
use agents_python_cloudflare.Chat.Folding.Ids.{IsEquality, of_call, no_id}
use agents_python_cloudflare.Chat.Folding.KeptTools.{Keeps}

-- The type of a tool's part.
abbrev pub is_tool_type : String → Bool
is_tool_type part_type = starts_with "tool-" part_type || part_type == "dynamic-tool"

abbrev pub is_tool_type_of : Option Json → Bool
is_tool_type_of (some (text part_type)) = is_tool_type part_type
is_tool_type_of _ = false

type_differs :
    (o : Option Json) (t : String)
    → is_tool_type_of o ≡ true
    → is_tool_type t ≡ false
    → elim o [ some (text s) ↦ s == t | _ ↦ false ] ≡ false
type_differs (some (text s)) t h n = ground (arith, eq_iff s t)
type_differs _ t h n = absurd (cc)

tool-data : (s : String) → starts_with "data-" s ≡ true → starts_with "tool-" s ≡ false
unfolding starts_with
tool-data String.[] h = absurd (cc)
tool-data (String.◌∷◌ c s) h = ground arith

pub data-is_tool_type : (s : String) → starts_with "data-" s ≡ true → is_tool_type s ≡ false
unfolding starts_with
data-is_tool_type s h = elim (Bool-cases (s == "dynamic-tool")) [
  | inl e ↦ absurd (
      let h' : starts_with "data-" "dynamic-tool" ≡ true =
        rw ((eq_iff s "dynamic-tool").0 e) at h in
      cc)
  | inr n ↦ rw (tool-data s h, n) refl
]

still_none :
    (key : String) (value : Option Json) (fs : Fields)
    → (key == "toolCallId") ≡ false
    → get_key "toolCallId" fs ≡ none
    → get_key "toolCallId" (copy_value key value fs) ≡ none
still_none key value fs other h = copy_value-other "toolCallId" key value fs other ∙ h

module _ (py : Builtins) (eq : IsEquality py) (id chunk_type : String) (chunk : Fields)
    (a : MessageAccumulator) (part : Fields)
    (found : find_last (of_call py eq id) a.parts ≡ some part) (final : is_final_output part ≡ true)
    (tool : is_tool_type_of (get_key "type" part) ≡ true) where
  abbrev Kept : Folded → Type 0
  Kept = Keeps py eq id chunk a part found final

  same : (e : FoldEffect) → Kept (e, a.parts)
  same e = record { kept = found }

  appended :
      (x : Fields) (e : FoldEffect) → get_key "toolCallId" x ≡ none → Kept (e, a.parts ++ x ∷ [])
  appended x e h = record { kept = find_last-append _ a.parts x (no_id py eq id x h) ∙ found }

  changed :
      (p : Fields → Bool) (f : Fields → Fields) (e : FoldEffect)
      → p part ≡ false
      → ((x : Fields) → get_key "toolCallId" (f x) ≡ get_key "toolCallId" x)
      → Kept (e, update_last p f a.parts)
  changed p f e other h = record {
    kept = find_last-update_last _ p f a.parts part (λ x hit. rw (h x) refl) other found;
  }

  kept_if : (b : Bool) {x y : Folded} → Kept x → Kept y → Kept (if b then x else y)
  kept_if true p q = p
  kept_if false p q = q

  kept_part :
      (o : Option Fields) {n : Folded} {s : Fields → Folded}
      → Kept n
      → ((p : Fields) → Kept (s p))
      → Kept (elim o [ none ↦ n | some p ↦ s p ])
  kept_part none p q = p
  kept_part (some x) p q = q x

  provider_id :
      (x : Fields)
      → get_key "toolCallId" (merge_provider py chunk_type chunk a.parts x).1
        ≡ get_key "toolCallId" x
  provider_id x = go (block_name chunk_type == "reasoning")
    where
      go :
          (b : Bool)
          → (let y : Bool × Fields =
                if b
                then merge_metadata py x "providerMetadata" (get_key "providerMetadata" chunk)
                else (false, x) in
              get_key "toolCallId" y.1)
            ≡ get_key "toolCallId" x
      go true = merge_metadata-other py "toolCallId" "providerMetadata" _ x refl
      go false = refl

  with_options :
      (key : String) (base : Fields)
      → (key == "toolCallId") ≡ false
      → get_key "toolCallId" base ≡ none
      → get_key "toolCallId" (
          copy_value "providerMetadata"
            (get_key "providerMetadata" chunk)
            (copy_value key (get_key key chunk) base))
        ≡ none
  with_options key base other h =
      still_none "providerMetadata" (get_key "providerMetadata" chunk)
        (copy_value key (get_key key chunk) base) refl
        (still_none key (get_key key chunk) base other h)

  abbrev file : Fields
  file = field "type" (text "file") (
      field "mediaType" (value_of (get_key "mediaType" chunk))
        (field "url" (value_of (get_key "url" chunk)) end))

  pub file_keeps : Kept (apply_file py chunk_type chunk a.parts)
  unfolding apply_file get_key
  file_keeps = appended _ _ (with_options "filename" file refl refl)

  abbrev url_source : Fields
  url_source = field "type" (text chunk_type) (
      field "sourceId" (value_of (get_key "sourceId" chunk))
        (field "url" (value_of (get_key "url" chunk)) end))

  abbrev document_source : Fields
  document_source = field "type" (text chunk_type) (
      field "sourceId" (value_of (get_key "sourceId" chunk)) (
        field "mediaType" (value_of (get_key "mediaType" chunk))
          (field "title" (value_of (get_key "title" chunk)) end)))

  source_id : get_key "toolCallId" (source_part py chunk_type chunk a.parts) ≡ none
  unfolding source_part get_key
  source_id = go (chunk_type == "source-url")
    where
      go :
          (b : Bool)
          → get_key "toolCallId" (
              if b
              then copy_value "providerMetadata"
                  (get_key "providerMetadata" chunk)
                  (copy_value "title" (get_key "title" chunk) url_source)
              else copy_value "providerMetadata"
                  (get_key "providerMetadata" chunk)
                  (copy_value "filename" (get_key "filename" chunk) document_source))
            ≡ none
      go true = with_options "title" url_source refl refl
      go false = with_options "filename" document_source refl refl

  pub source_keeps : Kept (apply_source py chunk_type chunk a.parts)
  unfolding apply_source
  source_keeps = appended _ _ source_id

  pub step_keeps : Kept (apply_step_start py chunk_type chunk a.parts)
  unfolding apply_step_start get_key
  step_keeps = appended _ _ refl

  pub text_start_keeps : Kept (apply_text_start py chunk_type chunk a.parts)
  unfolding apply_text_start get_key
  text_start_keeps = appended _ _ refl

  module _ (plain : is_tool_type (block_name chunk_type) ≡ false) where
    pub text_delta_keeps : Kept (apply_text_delta py chunk_type chunk a.parts)
    unfolding apply_text_delta get_key
    text_delta_keeps =
        kept_part (find_last_part (block_name chunk_type) a.parts) (appended _ _ (provider_id _))
          (λ p.
            changed _ _ _ (type_differs _ _ tool plain)
              (λ x. provider_id _ ∙ set_key-other "toolCallId" "text" _ x refl))

    pub text_end_keeps : Kept (apply_text_end py chunk_type chunk a.parts)
    unfolding apply_text_end
    text_end_keeps = kept_part (find_last_part (block_name chunk_type) a.parts) (same _) (λ p.
        changed _ _ _ (type_differs _ _ tool plain)
          (λ x. provider_id _ ∙ set_key-other "toolCallId" "state" _ x refl))

  new_data_id : get_key "toolCallId" (new_data py chunk_type chunk a.parts) ≡ none
  unfolding get_key
  new_data_id =
      still_none "id" (get_key "id" chunk)
        (field "type" (text chunk_type) (field "data" (value_of (get_key "data" chunk)) end)) refl
        refl

  data_differs :
      (v : Json)
      → is_tool_type chunk_type ≡ false
      → is_data py chunk_type chunk a.parts v part ≡ false
  data_differs v plain =
      let d = type_differs (get_key "type" part) chunk_type tool plain in rw d refl

  abbrev updated_data : Option Fields
  updated_data =
      find_last (is_data py chunk_type chunk a.parts (value_of (get_key "id" chunk))) a.parts

  pub data_keeps : is_tool_type chunk_type ≡ false → Kept (apply_data py chunk_type chunk a.parts)
  unfolding apply_data
  data_keeps plain = kept_if (is_true (get_key "transient" chunk)) (same _) (
      kept_if (is_null (get_key "id" chunk)) (appended _ _ new_data_id) (
        kept_part updated_data (appended _ _ new_data_id) (λ p.
          changed (is_data py chunk_type chunk a.parts (value_of (get_key "id" chunk))) _ _
            (data_differs (value_of (get_key "id" chunk)) plain)
            (λ x. set_key-other "toolCallId" "data" _ x refl))))
