-- ===== src/Sessions/Overlays.antt =====
-- `_plan_overlays`: where summaries stand in for the messages of a path.
use agents_python_cloudflare.Prelude.{
  ◌≡◌, ℕ, zero, suc, ◌+◌, ◌≤◌, String, Bool, false, ◌&&◌, Option, none, some, List, [], ◌∷◌, ◌==◌,
  leb, ltb, length, coalesce, get_elem?, if◌then◌else◌,
}

pub record StoredCompaction : Type 0 where
  pub id : String
  pub summary : String
  pub from_message_id : String
  pub to_message_id : String
  pub created_at_ms : ℕ

pub record OverlaySpan : Type 0 where
  pub start_index : ℕ
  pub end_index : ℕ
  pub compaction : StoredCompaction

-- indexes.get(id): a later index replaces an earlier one.
unfoldable pub index_from : ℕ → String → List String → Option ℕ
index_from i id [] = none
index_from i id (x ∷ xs) = elim (index_from (suc i) id xs) [
  | some later ↦ some later
  | none ↦ if x == id then some i else none
]

module _ (path_ids : List String) where
  unfoldable pub index_of : String → Option ℕ
  unfolding index_from
  index_of id = index_from 0 id path_ids

  -- Whether a compaction is kept in `latest`.
  unfoldable pub is_overlay : StoredCompaction → Bool
  unfolding index_of
  is_overlay c = elim (index_of c.from_message_id) [
    | none ↦ false
    | some start ↦ elim (index_of c.to_message_id) [ none ↦ false | some end ↦ leb start end ]
  ]

  -- latest.get(id), after the loop
  unfoldable pub latest : String → List StoredCompaction → Option StoredCompaction
  unfolding is_overlay
  latest id [] = none
  latest id (c ∷ rest) = elim (latest id rest) [
    | some later ↦ some later
    | none ↦ if is_overlay c && (c.from_message_id == id) then some c else none
  ]

  module _ (compactions : List StoredCompaction) where
    unfoldable pub overlay_at : ℕ → Option StoredCompaction
    unfolding latest
    overlay_at index = elim (get_elem? path_ids index) [
      | none ↦ none
      | some id ↦ latest id compactions
    ]

    -- indexes[compaction.to_message_id]
    abbrev pub end_of : StoredCompaction → ℕ
    end_of c = coalesce (index_of c.to_message_id) 0

    -- The loop, for a number of rounds.
    unfoldable pub spans_from : ℕ → ℕ → List OverlaySpan
    unfolding overlay_at index_of
    spans_from zero index = []
    spans_from (suc rounds) index =
        if ltb index (length path_ids)
        then elim (overlay_at index) [
          | none ↦ spans_from rounds (index + 1)
          | some c ↦
              record { start_index = index; end_index = end_of c; compaction = c }
              ∷ spans_from rounds (end_of c + 1)
        ]
        else []

    unfoldable pub plan_overlays : List OverlaySpan
    unfolding spans_from
    plan_overlays = spans_from (length path_ids) 0

    -- What a plan is from an index on. At every index from which a compaction is kept, outside of the
    -- spans before, a span starts, with that compaction, and ends within the path where the compaction
    -- does; and no other span is in it.
    abbrev pub IsPlan : ℕ → List OverlaySpan → Type 0
    IsPlan index [] = (j : ℕ) → index ≤ j → suc j ≤ length path_ids → overlay_at j ≡ none
    IsPlan index (s ∷ rest) =
        (index ≤ s.start_index)
        × (s.start_index ≤ s.end_index)
        × (suc s.end_index ≤ length path_ids)
        × (overlay_at s.start_index ≡ some s.compaction)
        × (index_of s.compaction.to_message_id ≡ some s.end_index)
        × ((j : ℕ) → index ≤ j → suc j ≤ s.start_index → overlay_at j ≡ none)
        × IsPlan (s.end_index + 1) rest
