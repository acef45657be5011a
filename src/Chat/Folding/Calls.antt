-- ===== src/Chat/Folding/Calls.antt =====
-- The id of the call in a tool's part, as it is built and as a part is updated with it.
use agents_python_cloudflare.Prelude.{
  ◌≡◌, ◌⊎◌, refl, ◌∙◌, String, Bool, true, false, Option, some, ◌==◌, arith, eq_iff, Bool-cases,
  inl, inr, if◌then◌else◌,
}
use agents_python_cloudflare.Json.{
  Json, text, object, Fields, end, field, get_key, set_key, update_keys, is_null,
}
use agents_python_cloudflare.Json.Laws.{get_key-set_key, set_key-other}
use agents_python_cloudflare.Chat.Folding.Parts.{
  Builtins, copy_value, value_of, tool_type, tool_part, normalize_tool_input,
}
use agents_python_cloudflare.Chat.Folding.Searching.{copy_value-other}

-- Every field of the key has the value.
abbrev pub AllAt : String → Json → Fields → Type 0
AllAt k u end = Unit
AllAt k u (field key v fs) = ((key == k) ≡ true → v ≡ u) × AllAt k u fs

set_key-AllAt :
    (k key : String) (u v : Json) (fs : Fields)
    → (key == k) ≡ false
    → AllAt k u fs
    → AllAt k u (set_key key v fs)
unfolding set_key
set_key-AllAt k key u v end h all = (λ e. absurd (cc), tt)
set_key-AllAt k key u v (field other w fs) h all = elim (Bool-cases (other == key)) [
  | inl e ↦
      rw e (λ hit. absurd (ground (arith, eq_iff other key, eq_iff other k, eq_iff key k)), all.1)
  | inr n ↦ rw n (all.0, set_key-AllAt k key u v fs h all.1)
]

copy_value-AllAt :
    (k key : String) (u : Json) (value : Option Json) (fs : Fields)
    → (key == k) ≡ false
    → AllAt k u fs
    → AllAt k u (copy_value key value fs)
copy_value-AllAt k key u value fs h all = go (is_null value)
  where
    go : (b : Bool) → AllAt k u (if b then fs else set_key key (value_of value) fs)
    go true = all
    go false = set_key-AllAt k key u (value_of value) fs h all

-- After an update the key has the value, or the one that it had.
get_key-update_keys :
    (k : String) (u : Json) (new old : Fields)
    → AllAt k u new
    → (get_key k (update_keys old new) ≡ some u) ⊎ (get_key k (update_keys old new) ≡ get_key k old)
unfolding update_keys
get_key-update_keys k u end old all = inr refl
get_key-update_keys k u (field key v fs) old all =
    elim (get_key-update_keys k u fs (set_key key v old) all.1) [
      | inl e ↦ inl e
      | inr e ↦ elim (Bool-cases (key == k)) [
        | inl hit ↦ inl (e ∙ get_key-set_key k key v old ∙ rw (hit, all.0 hit) refl)
        | inr miss ↦ inr (e ∙ set_key-other k key v old miss)
      ]
    ]

-- The id of the call in a tool's part.
module _ (py : Builtins) (chunk : Fields) (state : String) (include_input : Bool) where
  abbrev pub chunk_id : Json
  chunk_id = value_of (get_key "toolCallId" chunk)

  abbrev base : Fields
  base = field "type" (text (tool_type py chunk)) (
      field "toolCallId" chunk_id
        (field "toolName" (value_of (get_key "toolName" chunk)) (field "state" (text state) end)))

  abbrev with_input : Bool → Fields
  with_input b =
      if b
      then set_key "input" (object (normalize_tool_input py (get_key "input" chunk))) base
      else base

  input_id : (b : Bool) → get_key "toolCallId" (with_input b) ≡ some chunk_id
  unfolding get_key
  input_id true = set_key-other "toolCallId" "input" _ base refl
  input_id false = refl

  base-AllAt : AllAt "toolCallId" chunk_id base
  base-AllAt = (λ e. absurd (cc), (λ e. refl, (λ e. absurd (cc), (λ e. absurd (cc), tt))))

  input-AllAt : (b : Bool) → AllAt "toolCallId" chunk_id (with_input b)
  input-AllAt true =
      set_key-AllAt "toolCallId" "input" chunk_id
        (object (normalize_tool_input py (get_key "input" chunk))) base refl base-AllAt
  input-AllAt false = base-AllAt

  pub tool_part-id : get_key "toolCallId" (tool_part py chunk state include_input) ≡ some chunk_id
  unfolding tool_part
  tool_part-id =
      copy_value-other "toolCallId" "title" (get_key "title" chunk) _ refl
      ∙ copy_value-other "toolCallId" "callProviderMetadata" (get_key "providerMetadata" chunk) _
          refl
      ∙ copy_value-other "toolCallId" "providerExecuted" (get_key "providerExecuted" chunk)
          (with_input include_input) refl
      ∙ input_id include_input

  tool_part-AllAt : AllAt "toolCallId" chunk_id (tool_part py chunk state include_input)
  unfolding tool_part
  tool_part-AllAt = copy_value-AllAt "toolCallId" "title" chunk_id (get_key "title" chunk) _ refl (
      copy_value-AllAt "toolCallId" "callProviderMetadata" chunk_id
        (get_key "providerMetadata" chunk) _ refl
        (copy_value-AllAt "toolCallId" "providerExecuted" chunk_id
          (get_key "providerExecuted" chunk) (with_input include_input) refl
          (input-AllAt include_input)))

  pub update_keys-id :
      (old : Fields)
      → (get_key "toolCallId" (update_keys old (tool_part py chunk state include_input))
          ≡ some chunk_id)
        ⊎ (get_key "toolCallId" (update_keys old (tool_part py chunk state include_input))
            ≡ get_key "toolCallId" old)
  update_keys-id old = get_key-update_keys "toolCallId" chunk_id _ old tool_part-AllAt
