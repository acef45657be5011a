-- ===== src/Sessions/Protected.antt =====
-- What a compaction leaves alone: the head of a session and its last messages.
use Prim.Native.Nat.{min, max}
use agents_python_cloudflare.Prelude.{
  ◌≡◌, refl, ◌∙◌, sym, ap, ℕ, zero, suc, ◌+◌, ◌-◌, ◌≤◌, String, Bool, true, false, none, some, List,
  [], ◌∷◌, eqb, leb, length, take, drop, get_elem?, arith, Bool-cases, Option-cases, inl, inr,
}
use agents_python_cloudflare.Json.{Fields}
use agents_python_cloudflare.Sessions.Compaction.{
  protect_head, min_tail_messages, is_tool_result_for, calls_at, past_results,
  align_boundary_forward, all_results, search_call, align_boundary_backward, token_cut_from,
  find_tail_cut,
}
use agents_python_cloudflare.Sessions.Input.{
  Estimates, CompactionInput, without_summaries, slice, input_of, first_summary, summary_text,
  total_tokens, prepare_compaction_input,
}

get_elem?-drop : (n k : ℕ) (l : List Fields) → get_elem? (drop n l) k ≡ get_elem? l (k + n)
get_elem?-drop zero k l = ap (get_elem? l) (omega arith)
get_elem?-drop (suc n) k [] = refl
get_elem?-drop (suc n) k (x ∷ l) =
    get_elem?-drop n k l ∙ ap (get_elem? (x ∷ l)) {x = suc (k + n)} (omega arith)

length-drop : (n : ℕ) (l : List Fields) → length (drop n l) ≡ length l - n
length-drop zero l = omega arith
length-drop (suc n) [] = omega arith
length-drop (suc n) (x ∷ l) = omega (arith, length-drop n l)

-- Where the search for the end of the results stops.
abbrev Stops : List String → List Fields → ℕ → ℕ → Type 0
Stops ids l index stop =
    (k : ℕ) × (stop ≡ index + k)
    × (k ≤ length l)
    × ((m : Fields) → get_elem? l k ≡ some m → is_tool_result_for ids m ≡ false)
    × ((i : ℕ) (m : Fields) → suc i ≤ k → get_elem? l i ≡ some m → is_tool_result_for ids m ≡ true)

past_results-Stops :
    (ids : List String) (index : ℕ) (l : List Fields) → Stops ids l index (past_results ids index l)
unfolding past_results
past_results-Stops ids index [] =
    (0, omega arith, omega arith, (λ m e. absurd (cc)), (λ i m le e. absurd (cc)))
past_results-Stops ids index (x ∷ l) = elim (Bool-cases (is_tool_result_for ids x)) [
  | inl result ↦
      let (k, at, within, stops, before) = past_results-Stops ids (index + 1) l in
      rw (result, past_results)
        (suc k, omega (arith, at), omega (arith, within), stops, passed k result before)
  | inr other ↦
      rw (other, past_results)
        (
          0,
          omega arith,
          omega arith,
          (λ m e. let same : x ≡ m = cc in rw (sym same) other),
          (λ i m le e. absurd (omega (arith, le))),
        )
]
  where
    passed :
        (k : ℕ)
        → is_tool_result_for ids x ≡ true
        → ((i : ℕ) (m : Fields)
            → suc i ≤ k
            → get_elem? l i ≡ some m
            → is_tool_result_for ids m ≡ true)
        → (i : ℕ) (m : Fields) → suc i ≤ suc k
        → get_elem? (x ∷ l) i ≡ some m
        → is_tool_result_for ids m ≡ true
    passed k result before zero m le e = let same : x ≡ m = cc in rw (sym same) result
    passed k result before (suc i) m le e = before i m (omega (arith, le)) e

module _ (messages : List Fields) (long : 6 ≤ length messages) where
  is_long : leb (length messages) 3 ≡ false
  is_long = ground arith

  forward_none :
      calls_at messages 2 ≡ none → align_boundary_forward messages protect_head ≡ protect_head
  unfolding align_boundary_forward
  forward_none free = rw (is_long, free, align_boundary_forward) refl

  forward_some :
      (ids : List String)
      → calls_at messages 2 ≡ some ids
      → align_boundary_forward messages protect_head
        ≡ past_results ids protect_head (drop protect_head messages)
  unfolding align_boundary_forward
  forward_some ids calls = rw (is_long, calls, align_boundary_forward) refl

-- The head ends within the session, after the protected messages and the results of the last one's
-- calls that follow them without a gap, and nowhere else.
abbrev pub EndsHead : List Fields → ℕ → Type 0
EndsHead messages start =
    (calls_at messages 2 ≡ none → start ≡ protect_head)
    × ((ids : List String) (m : Fields)
        → calls_at messages 2 ≡ some ids
        → get_elem? messages start ≡ some m
        → is_tool_result_for ids m ≡ false)
    × ((ids : List String) (j : ℕ) (m : Fields)
        → calls_at messages 2 ≡ some ids
        → protect_head ≤ j
        → suc j ≤ start
        → get_elem? messages j ≡ some m
        → is_tool_result_for ids m ≡ true)

pub forward-bounds :
    (messages : List Fields)
    → 6 ≤ length messages
    → let start = align_boundary_forward messages protect_head in
      (protect_head ≤ start) × (start ≤ length messages) × EndsHead messages start
forward-bounds messages long = elim (Option-cases (calls_at messages 2)) [
  | inl free ↦ rw (forward_none messages long free) (
    omega arith,
    omega (arith, long),
    (
      (λ e. refl),
      (λ ids m calls at. absurd (cc)),
      (λ ids j m calls low high at. absurd (omega (arith, low, high))),
    ),
  )
  | inr (found, calls) ↦
      let (k, at, within, stops, before) = past_results-Stops found 3 (drop 3 messages) in
      let size = length-drop 3 messages in
      let start = forward_some messages long found calls in
      let stop = start ∙ at in
      rw stop (
        omega (arith, stop),
        omega (arith, stop, within, size, long),
        (
          (λ e. absurd (cc)),
          (λ ids m called is_m.
              let same : found ≡ ids = cc in
              let place : get_elem? (drop 3 messages) k ≡ some m =
                get_elem?-drop 3 k messages ∙ ap (get_elem? messages) (omega arith) ∙ is_m in
              rw (sym same) (stops m place)),
          (λ ids j m called low high is_m.
              let same : found ≡ ids = cc in
              let place : get_elem? (drop 3 messages) (j - 3) ≡ some m =
                get_elem?-drop 3 (j - 3) messages
                ∙ ap (get_elem? messages) (omega (arith, low))
                ∙ is_m in
              rw (sym same) (before (j - 3) m (omega (arith, low, high)) place)),
        ),
      )
]

search_call-le :
    (messages : List Fields) (index n : ℕ) → n ≤ index → search_call messages index n ≤ index
unfolding search_call
search_call-le messages index zero h = omega arith
search_call-le messages index (suc n) h = elim (Option-cases (calls_at messages n)) [
  | inl free ↦ rw (free, search_call) (search_call-le messages index n (omega (arith, h)))
  | inr (ids, calls) ↦
      elim (Bool-cases (all_results ids (take (index - n) (drop (n + 1) messages)))) [
        | inl all ↦ rw (calls, all, search_call) (omega (arith, h))
        | inr other ↦ rw (calls, other, search_call) (omega arith)
      ]
]

align_boundary_backward-le :
    (messages : List Fields) (index : ℕ) → align_boundary_backward messages index ≤ index
unfolding align_boundary_backward
align_boundary_backward-le messages index =
    let s = search_call-le messages index index (omega arith) in ground arith

-- Where one message at most is left, the cut is not after it.
tight_cut :
    (messages : List Fields) (head_end : ℕ) (exceeds : ℕ → Bool) (estimate_tokens : Fields → ℕ)
    → head_end ≤ length messages
    → length messages ≤ head_end + 1
    → token_cut_from messages head_end exceeds estimate_tokens
        (length messages - head_end)
        0
        (length messages)
      ≤ head_end
unfolding token_cut_from
tight_cut messages head_end exceeds estimate_tokens within tight =
    elim (Bool-cases (eqb (length messages) head_end)) [
      | inl all ↦
          let none_left : length messages - head_end ≡ 0 = ground arith in
          rw none_left (ground arith)
      | inr more ↦
          let one_left : length messages - head_end ≡ 1 = ground arith in rw one_left (ground arith)
    ]

pub find_tail_cut-bounds :
    (messages : List Fields) (head_end : ℕ) (exceeds : ℕ → Bool) (estimate_tokens : Fields → ℕ)
    → head_end ≤ length messages
    → 2 ≤ length messages
    → let cut = find_tail_cut messages head_end exceeds estimate_tokens in
      suc head_end ≤ cut → cut + 2 ≤ length messages
unfolding find_tail_cut
find_tail_cut-bounds messages head_end exceeds estimate_tokens within two after =
    elim (Bool-cases (leb (head_end + 2) (length messages))) [
      | inl roomy ↦
          let le = align_boundary_backward-le messages (min cut (length messages - 2)) in
          rw roomy (omega (arith, le, two))
      | inr tight ↦
          let le = align_boundary_backward-le messages cut in
          let past : suc head_end ≤ align_boundary_backward messages cut = rw tight at after in
          let least = tight_cut messages head_end exceeds estimate_tokens within (ground arith) in
          absurd (omega (arith, le, past, least))
    ]
  where
    cut : ℕ
    cut =
        token_cut_from messages head_end exceeds estimate_tokens (length messages - head_end) 0
          (length messages)

abbrev pub is_nil : List Fields → Bool
is_nil [] = true
is_nil (m ∷ rest) = false

input_of-inv :
    (e : Estimates) (messages middle : List Fields) (input : CompactionInput)
    → input_of e messages middle ≡ some input
    → (input.messages ≡ middle) × (is_nil middle ≡ false) × (100 ≤ input.budget)
input_of-inv e messages [] input h = absurd (cc)
input_of-inv e messages (m ∷ rest) input h =
    let same : record {
      messages = m ∷ rest;
      previous_summary = summary_text e (first_summary messages);
      budget = max 100 (e.fifth (total_tokens e (m ∷ rest)));
    }
        ≡ input =
      cc in
    (
      sym (ap (λ (i : CompactionInput). i.messages) same),
      refl,
      (let b = ap (λ (i : CompactionInput). i.budget) same in omega (arith, b)),
    )

-- Where a session is compacted, the messages to be summarised are those from some `start` to before
-- some `stop`, less the summaries among them; there are such messages, and the summary has a budget of
-- 100 tokens at least. The first three messages and the last two are outside of this range, whatever
-- the estimates of tokens are and how many may be kept. If the third message is of the assistant and
-- calls tools, the range starts at the first later message that is no result of these calls, and
-- otherwise at the fourth message.
pub prepare_compaction_input-protects :
    (e : Estimates) (messages : List Fields) (input : CompactionInput)
    → prepare_compaction_input e messages ≡ some input
    → (start stop : ℕ) × (protect_head ≤ start)
      × (suc start ≤ stop)
      × (stop + min_tail_messages ≤ length messages)
      × (input.messages ≡ without_summaries (slice start stop messages))
      × (is_nil input.messages ≡ false)
      × (100 ≤ input.budget)
      × EndsHead messages start
unfolding prepare_compaction_input
prepare_compaction_input-protects e messages input h = elim (Bool-cases (leb (length messages) 5)) [
  | inl short ↦ absurd (let f : none ≡ some input = rw (short, prepare_compaction_input) at h in cc)
  | inr long ↦ elim (Bool-cases (leb stop start)) [
    | inl closed ↦
        absurd (let f : none ≡ some input = rw (long, closed, prepare_compaction_input) at h in cc)
    | inr opened ↦
        let made : input_of e messages (without_summaries (slice start stop messages))
            ≡ some input =
          rw (long, opened, prepare_compaction_input) at h in
        let long' : 6 ≤ length messages = ground arith in
        let past : suc start ≤ stop = ground arith in
        let (same, some_left, enough) = input_of-inv e messages _ input made in
        let (head, within, results) = forward-bounds messages long' in
        (
          start,
          stop,
          head,
          past,
          find_tail_cut-bounds messages start e.exceeds e.estimate_tokens within
              (omega (arith, long')) past,
          same,
          rw same some_left,
          enough,
          results,
        )
  ]
]
  where
    start : ℕ
    start = align_boundary_forward messages protect_head

    stop : ℕ
    stop = find_tail_cut messages start e.exceeds e.estimate_tokens
