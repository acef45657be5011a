-- ===== src/Sessions/History.antt =====
-- `_history_values` of agents/sessions.py: a path with its overlays in it. A row of the path stands for
-- itself by its index; the store's compactions are a parameter.
use agents_python_cloudflare.Prelude.{
  ◌≡◌, refl, sym, ◌∙◌, ℕ, zero, suc, ◌+◌, ◌≤◌, String, ◌&&◌, Option, none, some, List, [], ◌∷◌, eqb,
  ltb, length, is_none, if◌then◌else◌, arith, Bool-cases, Option-cases, inl, inr,
}
use agents_python_cloudflare.Sessions.Overlays.{
  StoredCompaction, OverlaySpan, index_of, overlay_at, plan_overlays, IsPlan,
}
use agents_python_cloudflare.Sessions.Planning.{plan_overlays-IsPlan}

-- What is yielded: the messages of path[start:stop], or a summary in place of those from `start` to
-- `end`, both included.
pub data Entry : Type 0 where
  hydrated : ℕ → ℕ → Entry
  overlaid : ℕ → ℕ → StoredCompaction → Entry

-- spans_by_start.get(index)
unfoldable pub span_at : List OverlaySpan → ℕ → Option OverlaySpan
span_at [] index = none
span_at (s ∷ rest) index = elim (span_at rest index) [
  | some later ↦ some later
  | none ↦ if eqb s.start_index index then some s else none
]

module _ (size : ℕ) (spans : List OverlaySpan) where
  -- The inner loop, for a number of rounds.
  unfoldable pub run_end : ℕ → ℕ → ℕ
  unfolding span_at
  run_end zero index = index
  run_end (suc rounds) index =
      let later = run_end rounds (index + 1) in
      if ltb index size && is_none (span_at spans index) then later else index

  module _ (stored : String → Option StoredCompaction) where
    abbrev pub span_entry : OverlaySpan → Entry
    span_entry s = elim (stored s.compaction.id) [
      | none ↦ hydrated s.start_index (s.end_index + 1)
      | some c ↦ overlaid s.start_index s.end_index c
    ]

    unfoldable pub entries_from : ℕ → ℕ → List Entry
    unfolding run_end span_at
    entries_from zero index = []
    entries_from (suc rounds) index =
        if ltb index size
        then elim (span_at spans index) [
          | some s ↦ span_entry s ∷ entries_from rounds (s.end_index + 1)
          | none ↦
              hydrated index (run_end size (index + 1))
              ∷ entries_from rounds (run_end size (index + 1))
        ]
        else []

module _ (path_ids : List String) (ranges : List StoredCompaction)
    (stored : String → Option StoredCompaction) where
  unfoldable pub history_values : List Entry
  unfolding entries_from plan_overlays
  history_values =
      entries_from (length path_ids) (plan_overlays path_ids ranges) stored (length path_ids) 0

  -- Entries that are the path from an index on, each message once and in order. A summary is the stored
  -- one of a compaction that is kept from its first message, and ends where that compaction does.
  abbrev pub Covers : ℕ → List Entry → Type 0
  Covers index [] = index ≡ length path_ids
  Covers index (hydrated start stop ∷ rest) =
      (start ≡ index) × (suc start ≤ stop) × Covers stop rest
  Covers index (overlaid start end c ∷ rest) =
      (start ≡ index)
      × (start ≤ end)
      × ((range : StoredCompaction) × (overlay_at path_ids ranges start ≡ some range)
          × (index_of path_ids range.to_message_id ≡ some end)
          × (stored range.id ≡ some c))
      × Covers (end + 1) rest

  -- What is known of a span of the plan.
  abbrev IsSpan : OverlaySpan → Type 0
  IsSpan s =
      (s.start_index ≤ s.end_index)
      × (suc s.end_index ≤ length path_ids)
      × (overlay_at path_ids ranges s.start_index ≡ some s.compaction)
      × (index_of path_ids s.compaction.to_message_id ≡ some s.end_index)

  span_at-IsSpan :
      (from : ℕ) (spans : List OverlaySpan) (index : ℕ) (s : OverlaySpan)
      → IsPlan path_ids ranges from spans
      → span_at spans index ≡ some s
      → (s.start_index ≡ index) × IsSpan s
  unfolding span_at
  span_at-IsSpan from [] index s plan h = absurd (cc)
  span_at-IsSpan from (t ∷ rest) index s (low, ordered, within, starts, ends, between, later) h =
      elim (Option-cases (span_at rest index)) [
        | inr (found, is_found) ↦
            span_at-IsSpan (t.end_index + 1) rest index s later
              (let e : some found ≡ some s = rw (is_found, span_at) at h in is_found ∙ e)
        | inl missing ↦ elim (Bool-cases (eqb t.start_index index)) [
          | inl at ↦
              (let e : some t ≡ some s = rw (missing, at, span_at) at h in
                let e' : t ≡ s = cc in rw (sym e') (ground arith, (ordered, within, starts, ends)))
          | inr past ↦ absurd (let f : none ≡ some s = rw (missing, past, span_at) at h in cc)
        ]
      ]

  run_end-bounds :
      (spans : List OverlaySpan) (rounds index : ℕ)
      → index ≤ length path_ids
      → (index ≤ run_end (length path_ids) spans rounds index)
        × (run_end (length path_ids) spans rounds index ≤ length path_ids)
  unfolding run_end
  run_end-bounds spans zero index h = (omega arith, h)
  run_end-bounds spans (suc rounds) index h =
      elim (Bool-cases (ltb index (length path_ids) && is_none (span_at spans index))) [
        | inl more ↦
            (let b = run_end-bounds spans rounds (index + 1) (ground arith) in
              rw (more, run_end) (omega (arith, b), b.1))
        | inr done ↦ rw (done, run_end) (omega arith, h)
      ]

  entries_from-Covers :
      (spans : List OverlaySpan) (rounds index : ℕ)
      → IsPlan path_ids ranges 0 spans
      → index ≤ length path_ids
      → length path_ids ≤ index + rounds
      → Covers index (entries_from (length path_ids) spans stored rounds index)
  unfolding entries_from
  entries_from-Covers spans zero index plan within enough = omega (arith, within, enough)
  entries_from-Covers spans (suc rounds) index plan within enough =
      elim (Bool-cases (ltb index (length path_ids))) [
        | inr out ↦ rw (out, entries_from) (ground arith)
        | inl inside ↦ elim (Option-cases (span_at spans index)) [
          | inl free ↦
              let b = run_end-bounds spans (length path_ids) (index + 1) (ground arith) in
              rw (inside, free, entries_from)
                (
                  refl,
                  omega (arith, b),
                  entries_from-Covers spans rounds _ plan b.1 (omega (arith, enough, b)),
                )
          | inr (s, is_s) ↦
              let (at, (ordered, within', starts, ends)) =
                span_at-IsSpan 0 spans index s plan is_s in
              let after : Covers (s.end_index + 1)
                  (entries_from (length path_ids) spans stored rounds (s.end_index + 1)) =
                entries_from-Covers spans rounds (s.end_index + 1) plan (omega (arith, within'))
                  (omega (arith, enough, at, ordered)) in
              rw (inside, is_s, entries_from)
                (elim (Option-cases (stored s.compaction.id)) [
                  | inl gone ↦ rw (gone, Covers) (at, omega (arith, ordered), after)
                  | inr (c, held) ↦
                      rw (held, Covers) (at, ordered, (s.compaction, starts, ends, held), after)
                ])
        ]
      ]

-- The loops of `_history_values` end, and what they yield is the whole path: every message of it
-- once, in order, itself or within the range of a summary. A summary that is yielded is the one that
-- the store has of a compaction that is kept from the first message of its range and ends at the last.
pub history_values-Covers :
    (path_ids : List String) (ranges : List StoredCompaction)
    (stored : String → Option StoredCompaction)
    → Covers path_ids ranges stored 0 (history_values path_ids ranges stored)
unfolding history_values
history_values-Covers path_ids ranges stored =
    entries_from-Covers path_ids ranges stored (plan_overlays path_ids ranges) (length path_ids) 0
      (plan_overlays-IsPlan path_ids ranges) (omega arith) (omega arith)
