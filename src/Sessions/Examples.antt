-- ===== src/Sessions/Examples.antt =====
-- A path with two compactions, and a session whose third message calls a tool.
use agents_python_cloudflare.Prelude.{
  Option, ◌==◌, if◌then◌else◌, ◌≡◌, refl, ℕ, ◌+◌, ◌≤◌, String, false, none, some, List, [], ◌∷◌,
  ltb, length, suc,
}
use agents_python_cloudflare.Json.{text, array, object, nil, cons, Fields, end, field, get_key}
use agents_python_cloudflare.Tasks.Policy.{starts_with}
use agents_python_cloudflare.Sessions.Overlays.{StoredCompaction, plan_overlays, IsPlan}
use agents_python_cloudflare.Sessions.History.{Covers, history_values, history_values-Covers}
use agents_python_cloudflare.Sessions.Planning.{plan_overlays-IsPlan}
use agents_python_cloudflare.Sessions.Compaction.{
  protect_head, min_tail_messages, calls_at, is_tool_result_for, parts_of, dicts, has_tool_calls,
  any_part, call_ids, calls_of, is_compaction_message, past_results, align_boundary_forward,
  align_boundary_backward, search_call, all_results, token_cut_from, find_tail_cut,
}
use agents_python_cloudflare.Sessions.Input.{
  Estimates, CompactionInput, prepare_compaction_input, without_summaries, slice, first_summary,
  total_tokens,
}
use agents_python_cloudflare.Sessions.Protected.{
  EndsHead, prepare_compaction_input-protects, is_nil,
}

abbrev path : List String
path = "m1" ∷ "m2" ∷ "m3" ∷ "m4" ∷ "m5" ∷ []

abbrev compactions : List StoredCompaction
compactions =
    record {
      id = "a";
      summary = "old";
      from_message_id = "m2";
      to_message_id = "m3";
      created_at_ms = 1;
    }
    ∷ record {
      id = "b";
      summary = "new";
      from_message_id = "m2";
      to_message_id = "m4";
      created_at_ms = 2;
    }
    ∷ []

plan_overlays-IsPlan_example : IsPlan path compactions 0 (plan_overlays path compactions)
plan_overlays-IsPlan_example = plan_overlays-IsPlan path compactions

abbrev said : Fields
said = field "role" (text "user") end

abbrev tool : Fields
tool = field "role" (text "assistant") (
    field "parts"
      (array (
        cons (object (field "type" (text "tool-search") (field "toolCallId" (text "call-1") end)))
          nil))
      end)

abbrev session : List Fields
session = said ∷ said ∷ tool ∷ tool ∷ said ∷ said ∷ said ∷ said ∷ []

abbrev estimates : Estimates
estimates = record {
  estimate_tokens = λ message. 1;
  exceeds = λ tokens. ltb 2 tokens;
  fifth = λ tokens. 0;
  number_text = λ value. "0";
}

abbrev input : CompactionInput
input = record { messages = said ∷ said ∷ []; previous_summary = none; budget = 100 }

is_prepared : prepare_compaction_input estimates session ≡ some input
unfolding prepare_compaction_input align_boundary_forward find_tail_cut without_summaries
    first_summary total_tokens calls_at calls_of has_tool_calls any_part call_ids parts_of dicts
    get_key starts_with past_results is_tool_result_for is_compaction_message token_cut_from
    align_boundary_backward search_call all_results
is_prepared = refl

prepare_compaction_input-protects_example :
    (start stop : ℕ) × (protect_head ≤ start)
    × (suc start ≤ stop)
    × (stop + min_tail_messages ≤ length session)
    × (input.messages ≡ without_summaries (slice start stop session))
    × (is_nil input.messages ≡ false)
    × (100 ≤ input.budget)
    × EndsHead session start
prepare_compaction_input-protects_example =
    prepare_compaction_input-protects estimates session input is_prepared

abbrev stored : String → Option StoredCompaction
stored id =
    if id == "b"
    then some (record {
      id = "b";
      summary = "new";
      from_message_id = "m2";
      to_message_id = "m4";
      created_at_ms = 2;
    })
    else none

history_values-Covers_example :
    Covers path compactions stored 0 (history_values path compactions stored)
history_values-Covers_example = history_values-Covers path compactions stored
