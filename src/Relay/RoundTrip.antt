-- ===== src/Relay/RoundTrip.antt =====
-- From a buffered connection to the real one.
use agents_python_cloudflare.Prelude.{
  ℕ, suc, ◌+◌, ◌-◌, ◌≤◌, ◌≡◌, refl, ◌∙◌, ap, String, false, some, List, [], ◌∷◌, arith, length, ltb,
  eqb, Bool-cases, inl, inr, ◌⊎◌,
}
use agents_python_cloudflare.Json.{Json, array, Items, nil, cons, utf8_length}
use agents_python_cloudflare.Relay.Connection.{
  Wire, RelayLimits, RelayOperation, returned, operation_wire, wire_items, BufferedRelayConnection,
  new_connection, operation_size, operation_log,
}
use agents_python_cloudflare.Relay.Log.{count_items, decode_operation_log, apply_operations}
use agents_python_cloudflare.Relay.Trace.{Action, run, recorder, recorded}
use agents_python_cloudflare.Relay.Applying.{decode_items-wire}
use agents_python_cloudflare.Relay.Buffered.{IsBuffered, total_size, opened}
use agents_python_cloudflare.Relay.Calls.{run-IsBuffered, new-IsBuffered}

unfoldable pub items_size : Wire → Items → ℕ
items_size w nil = 0
items_size w (cons v items) = utf8_length (w.dumps v) + items_size w items

-- The JSON text of an array is read back, and it is the items' texts, between brackets and with single
-- commas.
pub record IsCompact (w : Wire) (items : Items) : Type 0 where
  pub reads : w.loads (w.dumps (array items)) ≡ some (array items)
  pub array_size :
      utf8_length (w.dumps (array items)) ≡ 2 + items_size w items + (count_items items - 1)

no_size : (w : Wire) (ops : List RelayOperation) → length ops ≡ 0 → total_size w ops ≡ 0
unfolding total_size
no_size w [] h = refl
no_size w (operation ∷ ops) h = absurd (omega arith)

module _ (w : Wire) where
  items_size-wire : (ops : List RelayOperation) → items_size w (wire_items ops) ≡ total_size w ops
  unfolding items_size wire_items total_size operation_size
  items_size-wire [] = refl
  items_size-wire (operation ∷ ops) =
      ap (λ n. utf8_length (w.dumps (operation_wire operation)) + n) (items_size-wire ops)

  count_items-wire : (ops : List RelayOperation) → count_items (wire_items ops) ≡ length ops
  unfolding count_items wire_items
  count_items-wire [] = refl
  count_items-wire (operation ∷ ops) = ap suc (count_items-wire ops)

  log_decodes :
      (limits : RelayLimits) (raw_state : Json) (tag_list : List String)
      (c : BufferedRelayConnection)
      → IsCompact w (wire_items c.operations)
      → 2 ≤ limits.max_bytes
      → IsBuffered w raw_state tag_list limits c
      → decode_operation_log w (operation_log w c) limits ≡ returned c.operations
  unfolding decode_operation_log operation_log
  log_decodes limits raw_state tag_list c compact room b =
      rw (small, compact.reads, few) (decode_items-wire c.operations b.closes)
    where
      log_size :
          utf8_length (w.dumps (array (wire_items c.operations)))
          ≡ 2 + c.operation_bytes + (length c.operations - 1)
      log_size =
          compact.array_size
          ∙ rw (items_size-wire c.operations, count_items-wire c.operations, b.bytes) refl

      limit : c.limits.max_bytes ≡ limits.max_bytes
      limit = ap (λ (l : RelayLimits). l.max_bytes) b.same_limits

      empty_fits :
          length c.operations ≡ 0
          → 2 + c.operation_bytes + (length c.operations - 1) ≤ limits.max_bytes
      empty_fits none_sent = omega (arith, no_size w c.operations none_sent, b.bytes, limit)

      fits :
          (length c.operations ≡ 0)
            ⊎ (1 + c.operation_bytes + length c.operations ≤ c.limits.max_bytes)
          → 2 + c.operation_bytes + (length c.operations - 1) ≤ limits.max_bytes
      fits (inl none_sent) = omega (arith, no_size w c.operations none_sent, b.bytes, limit)
      fits (inr within) = elim (Bool-cases (eqb (length c.operations) 0)) [
        | inl none_sent ↦ empty_fits (ground arith)
        | inr some_sent ↦
            let n : 1 ≤ length c.operations = ground arith in omega (arith, n, within, limit)
      ]

      small : ltb limits.max_bytes (utf8_length (w.dumps (array (wire_items c.operations)))) ≡ false
      small = rw log_size (let f = fits b.size in ground arith)

      few : ltb limits.max_frames (count_items (wire_items c.operations)) ≡ false
      few =
          let f = b.frames in
          let same : c.limits.max_frames ≡ limits.max_frames =
            ap (λ (l : RelayLimits). l.max_frames) b.same_limits in
          rw (count_items-wire c.operations) (ground arith)

-- What a sub-agent does to its buffered connection reaches the real one. Let any calls be made on a new
-- connection, those that raise included. Then the log that it returns is accepted by the decoder with the
-- same limits, which are of two bytes at least, and decodes to the recorded operations; and these make an
-- open sink that began with the same state and tags have the state, tags and closedness that the buffered
-- connection has, after sending its frames in their order. The log's text is JSON that is read back,
-- without spaces.
pub operation_log-decodes :
    (w : Wire) (raw_state : Json) (tag_list : List String) (limits : RelayLimits)
    (actions : List Action)
    → IsCompact w (wire_items (run w actions (new_connection raw_state tag_list limits)).operations)
    → 2 ≤ limits.max_bytes
    → let c = run w actions (new_connection raw_state tag_list limits) in
      (decode_operation_log w (operation_log w c) limits ≡ returned c.operations)
      × (apply_operations recorder c.operations (opened raw_state tag_list) ≡ recorded c)
operation_log-decodes w raw_state tag_list limits actions compact room =
    let b =
      run-IsBuffered w raw_state tag_list limits actions (new_connection raw_state tag_list limits)
        (new-IsBuffered w raw_state tag_list limits) in
    (log_decodes w limits raw_state tag_list _ compact room b, b.replays)
