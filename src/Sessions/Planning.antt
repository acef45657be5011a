-- ===== src/Sessions/Planning.antt =====
-- The overlays that `_plan_overlays` plans are all that can be.
use agents_python_cloudflare.Prelude.{
  ◌≡◌, refl, ℕ, zero, suc, ◌+◌, ◌≤◌, String, true, false, none, some, List, [], ◌∷◌, eqb, leb, ltb,
  length, is_some, get_elem?, arith, eq_iff, Bool-cases, Option-cases, inl, inr,
}
use agents_python_cloudflare.Sessions.Overlays.{
  StoredCompaction, OverlaySpan, index_from, index_of, is_overlay, latest, overlay_at, end_of,
  spans_from, plan_overlays, IsPlan,
}

index_from-bound :
    (i k : ℕ) (id : String) (xs : List String)
    → index_from i id xs ≡ some k
    → (i ≤ k) × (suc k ≤ i + length xs)
unfolding index_from
index_from-bound i k id [] h = absurd (cc)
index_from-bound i k id (x ∷ xs) h = ground (arith, index_from-bound (suc i) k id xs)

index_from-some :
    (i j : ℕ) (id : String) (xs : List String)
    → get_elem? xs j ≡ some id
    → is_some (index_from i id xs) ≡ true
unfolding index_from
index_from-some i j id [] e = absurd (cc)
index_from-some i zero id (x ∷ xs) e =
    let same : x ≡ id = cc in ground (arith, (eq_iff x id).1 same)
index_from-some i (suc j) id (x ∷ xs) e = ground (arith, index_from-some (suc i) j id xs e)

-- A later index of the same id replaces an earlier one.
index_from-last :
    (i j k : ℕ) (id : String) (xs : List String)
    → get_elem? xs j ≡ some id
    → index_from i id xs ≡ some k
    → i + j ≤ k
unfolding index_from
index_from-last i j k id [] e h = absurd (cc)
index_from-last i zero k id (x ∷ xs) e h =
    let b = (index_from-bound i k id (x ∷ xs) h).0 in omega (arith, b)
index_from-last i (suc j) k id (x ∷ xs) e h = elim (Option-cases (index_from (suc i) id xs)) [
  | inl missing ↦ absurd (let p = index_from-some (suc i) j id xs e in ground arith)
  | inr (later, is_later) ↦ let b = index_from-last (suc i) j later id xs e is_later in ground arith
]

module _ (path_ids : List String) where
  latest-IsOverlay :
      (id : String) (cs : List StoredCompaction) (c : StoredCompaction)
      → latest path_ids id cs ≡ some c
      → (is_overlay path_ids c ≡ true) × (c.from_message_id ≡ id)
  unfolding latest
  latest-IsOverlay id [] c h = absurd (cc)
  latest-IsOverlay id (d ∷ rest) c h =
      ground (arith, latest-IsOverlay id rest c, eq_iff d.from_message_id id)

  end_of-index :
      (cs : List StoredCompaction) (c : StoredCompaction)
      → is_overlay path_ids c ≡ true
      → index_of path_ids c.to_message_id ≡ some (end_of path_ids cs c)
  unfolding is_overlay
  end_of-index cs c h = elim (Option-cases (index_of path_ids c.to_message_id)) [
    | inl missing ↦ absurd (ground arith)
    | inr (end, is_end) ↦ rw is_end refl
  ]

  overlay-starts :
      (cs : List StoredCompaction) (c : StoredCompaction) (index : ℕ)
      → is_overlay path_ids c ≡ true
      → get_elem? path_ids index ≡ some c.from_message_id
      → index ≤ end_of path_ids cs c
  unfolding is_overlay index_of
  overlay-starts cs c index h e = elim (Option-cases (index_of path_ids c.from_message_id)) [
    | inl missing ↦ absurd (let f : false ≡ true = rw (missing, is_overlay) at h in cc)
    | inr (start, is_start) ↦ elim (Option-cases (index_of path_ids c.to_message_id)) [
      | inl missing ↦ absurd (let f : false ≡ true = rw (is_start, missing, is_overlay) at h in cc)
      | inr (end, is_end) ↦
          let b : leb start end ≡ true = rw (is_start, is_end, is_overlay) at h in
          let l = index_from-last 0 index start c.from_message_id path_ids e is_start in
          rw is_end (ground arith)
    ]
  ]

  -- A compaction that is kept from an index on ends at or after it.
  overlay-end :
      (cs : List StoredCompaction) (index : ℕ) (c : StoredCompaction)
      → overlay_at path_ids cs index ≡ some c
      → (index ≤ end_of path_ids cs c)
        × (index_of path_ids c.to_message_id ≡ some (end_of path_ids cs c))
  unfolding overlay_at
  overlay-end cs index c h = elim (Option-cases (get_elem? path_ids index)) [
    | inl missing ↦ absurd (let e : none ≡ some c = rw (missing, overlay_at) at h in cc)
    | inr (id, is_id) ↦
        let kept : latest path_ids id cs ≡ some c = rw (is_id, overlay_at) at h in
        let (is_kept, from) = latest-IsOverlay id cs c kept in
        let is_end = end_of-index cs c is_kept in
        (overlay-starts cs c index is_kept (rw from is_id), is_end)
  ]

  index_of-bound : (id : String) (k : ℕ) → index_of path_ids id ≡ some k → suc k ≤ length path_ids
  unfolding index_of
  index_of-bound id k h = let b = (index_from-bound 0 k id path_ids h).1 in omega (arith, b)

  module _ (cs : List StoredCompaction) where
    -- No span starts where no compaction is kept from.
    skipped :
        (index : ℕ) (spans : List OverlaySpan)
        → overlay_at path_ids cs index ≡ none
        → IsPlan path_ids cs (index + 1) spans
        → IsPlan path_ids cs index spans
    skipped index [] free later = λ j low high. elim (Bool-cases (eqb j index)) [
      | inl at ↦ (let e : j ≡ index = ground arith in rw e free)
      | inr past ↦ later j (ground arith) high
    ]
    skipped index (s ∷ rest) free (low, ordered, within, starts, ends, between, later) = (
      omega (arith, low),
      ordered,
      within,
      starts,
      ends,
      (λ j from to. elim (Bool-cases (eqb j index)) [
        | inl at ↦ (let e : j ≡ index = ground arith in rw e free)
        | inr past ↦ between j (ground arith) to
      ]),
      later,
    )

    spans_from-IsPlan :
        (rounds index : ℕ)
        → length path_ids ≤ index + rounds
        → IsPlan path_ids cs index (spans_from path_ids cs rounds index)
    unfolding spans_from
    spans_from-IsPlan zero index enough = λ j low high. absurd (omega (arith, enough, low, high))
    spans_from-IsPlan (suc rounds) index enough = elim (Bool-cases (ltb index (length path_ids))) [
      | inr out ↦ rw (out, spans_from) (λ j low high. absurd (ground arith))
      | inl within ↦ elim (Option-cases (overlay_at path_ids cs index)) [
        | inl free ↦
            rw (within, free, spans_from)
              (skipped index _ free (spans_from-IsPlan rounds (index + 1) (omega (arith, enough))))
        | inr (c, starts) ↦
            let (later, ends) = overlay-end cs index c starts in
            rw (within, starts, spans_from)
              (
                omega arith,
                later,
                index_of-bound c.to_message_id _ ends,
                starts,
                ends,
                (λ j low high. absurd (omega (arith, low, high))),
                spans_from-IsPlan rounds (end_of path_ids cs c + 1) (omega (arith, enough, later)),
              )
      ]
    ]

-- The loop of `_plan_overlays` ends within as many rounds as the path has messages, and its spans are
-- then the whole plan: each starts where a compaction is kept from, and holds the last such; it ends
-- within the path, where that compaction ends; no span is in another; and outside of them no compaction
-- is kept from any message.
pub plan_overlays-IsPlan :
    (path_ids : List String) (compactions : List StoredCompaction)
    → IsPlan path_ids compactions 0 (plan_overlays path_ids compactions)
unfolding plan_overlays
plan_overlays-IsPlan path_ids compactions =
    spans_from-IsPlan path_ids compactions (length path_ids) 0 (omega arith)
