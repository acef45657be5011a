-- ===== src/Relay/Buffered.antt =====
-- What holds of a buffered connection, whatever is done to it.
use agents_python_cloudflare.Prelude.{
  ℕ, ◌+◌, ◌≤◌, ◌<◌, ◌≡◌, refl, sym, ◌∙◌, ap, String, Bool, true, false, not, none, some, List, [],
  ◌∷◌, ◌++◌, arith, length, length-append, leb, ltb, Bool-cases, ◌⊎◌, inl, inr, if◌then◌else◌,
}
use agents_python_cloudflare.Json.{Json, ℤ}
use agents_python_cloudflare.Relay.Connection.{
  Wire, RelayLimits, RelayOperation, send, state, tags, close, BufferedRelayConnection,
  operation_size, append, then_set,
}
use agents_python_cloudflare.Relay.Log.{is_close, apply_operations}
use agents_python_cloudflare.Relay.Trace.{
  Recorder, recorder, sends, recorded, closing, ending_after,
}
use agents_python_cloudflare.Relay.Applying.{
  no_close, closes_last, closes_last-append, no_close-append, closing-append, sends-append,
  apply_operations-append,
}

unfoldable pub total_size : Wire → List RelayOperation → ℕ
total_size w [] = 0
total_size w (operation ∷ rest) = operation_size w operation + total_size w rest

total_size-append :
    (w : Wire) (ops : List RelayOperation) (operation : RelayOperation)
    → total_size w (ops ++ operation ∷ []) ≡ total_size w ops + operation_size w operation
unfolding total_size
total_size-append w [] operation = omega arith
total_size-append w (a ∷ ops) operation = omega (arith, total_size-append w ops operation)

abbrev pub opened : Json → List String → Recorder
opened raw_state tag_list = record {
  state = raw_state;
  tags = tag_list;
  frames = [];
  closed = false;
  ending = none;
}

-- The log of a connection that began with a state and tags: its size is the one that is counted, it is
-- within the limits, nothing follows a close, and it does to a sink what was done to the connection.
pub record IsBuffered (w : Wire) (raw_state : Json) (tag_list : List String) (limits : RelayLimits)
    (c : BufferedRelayConnection) : Type 0 where
  pub same_limits : c.limits ≡ limits
  pub bytes : c.operation_bytes ≡ total_size w c.operations
  pub frames : length c.operations ≤ c.limits.max_frames
  pub size :
      (length c.operations ≡ 0) ⊎ (1 + c.operation_bytes + length c.operations ≤ c.limits.max_bytes)
  pub not_closed : c.closed ≡ false → no_close c.operations ≡ true
  pub closes : closes_last c.operations ≡ true
  pub replays : apply_operations recorder c.operations (opened raw_state tag_list) ≡ recorded c

abbrev grown : Wire → RelayOperation → BufferedRelayConnection → BufferedRelayConnection
grown w operation c = record c {
  operation_bytes = c.operation_bytes + operation_size w operation;
  operations = c.operations ++ operation ∷ [];
}

module _ (w : Wire) (raw_state : Json) (tag_list : List String) (limits : RelayLimits) where
  grow :
      (operation : RelayOperation) (c : BufferedRelayConnection) (raw' : Json) (tags' : List String)
      (closed' : Bool)
      → IsBuffered w raw_state tag_list limits c
      → c.closed ≡ false
      → length c.operations < c.limits.max_frames
      → 2 + c.operation_bytes + operation_size w operation + length c.operations
        ≤ c.limits.max_bytes
      → is_close operation ≡ closed'
      → apply_operations recorder (operation ∷ []) (recorded c) ≡ record {
        state = raw';
        tags = tags';
        frames = sends c.operations ++ sends (operation ∷ []);
        closed = closed';
        ending = ending_after operation (closing c.operations);
      }
      → IsBuffered w raw_state tag_list limits
          (record (grown w operation c) { raw_state = raw'; tag_list = tags'; closed = closed' })
  grow operation c raw' tags' closed' b is_open room space ends once = record {
    same_limits = b.same_limits;
    bytes = let e = b.bytes in omega (arith, total_size-append w c.operations operation);
    frames = omega (arith, length-append c.operations (operation ∷ []));
    size = inr (omega (arith, length-append c.operations (operation ∷ [])));
    not_closed = λ still.
        no_close-append c.operations operation (b.not_closed is_open) ∙ ap not (ends ∙ still);
    closes = closes_last-append c.operations operation (b.not_closed is_open);
    replays =
        apply_operations-append c.operations (operation ∷ []) raw_state tag_list []
          (b.not_closed is_open)
        ∙ ap (apply_operations recorder (operation ∷ [])) b.replays
        ∙ once
        ∙ ap
            (λ l. record {
              state = raw';
              tags = tags';
              frames = l;
              closed = closed';
              ending = ending_after operation (closing c.operations);
            })
            (sym (sends-append c.operations (operation ∷ [])))
        ∙ ap
            (λ e. record {
              state = raw';
              tags = tags';
              frames = sends (c.operations ++ operation ∷ []);
              closed = closed';
              ending = e;
            })
            (sym (closing-append c.operations operation));
  }

  module _ (operation : RelayOperation) (c : BufferedRelayConnection)
      (b : IsBuffered w raw_state tag_list limits c) where
    abbrev Grows : (BufferedRelayConnection → BufferedRelayConnection) → Type 0
    Grows f =
        length c.operations < c.limits.max_frames
        → 2 + c.operation_bytes + operation_size w operation + length c.operations
          ≤ c.limits.max_bytes
        → IsBuffered w raw_state tag_list limits (f (grown w operation c))

    append-IsBuffered :
        Grows (λ c'. c') → IsBuffered w raw_state tag_list limits (append w operation c).1
    unfolding append
    append-IsBuffered next = elim (Bool-cases (leb c.limits.max_frames (length c.operations))) [
      | inl full ↦ rw full b
      | inr room ↦
          elim (Bool-cases (
            ltb c.limits.max_bytes
              (2 + c.operation_bytes + operation_size w operation + length c.operations))) [
                | inl big ↦ rw (room, big) b
                | inr space ↦ rw (room, space) (next (ground arith) (ground arith))
              ]
    ]

    then_set-IsBuffered :
        (f : BufferedRelayConnection → BufferedRelayConnection)
        → Grows f
        → IsBuffered w raw_state tag_list limits (then_set w (append w operation c) f).1
    unfolding append
    then_set-IsBuffered f next = elim (Bool-cases (leb c.limits.max_frames (length c.operations))) [
      | inl full ↦ rw full b
      | inr room ↦
          elim (Bool-cases (
            ltb c.limits.max_bytes
              (2 + c.operation_bytes + operation_size w operation + length c.operations))) [
                | inl big ↦ rw (room, big) b
                | inr space ↦ rw (room, space) (next (ground arith) (ground arith))
              ]
    ]

  pub by_closed :
      {R : Type 0} (shut : Bool) (x y : R × BufferedRelayConnection)
      → IsBuffered w raw_state tag_list limits x.1
      → (shut ≡ false → IsBuffered w raw_state tag_list limits y.1)
      → IsBuffered w raw_state tag_list limits (if shut then x else y).1
  by_closed true x y p q = p
  by_closed false x y p q = q refl

  module _ (c : BufferedRelayConnection) (b : IsBuffered w raw_state tag_list limits c)
      (is_open : c.closed ≡ false) where
    once_sent :
        (text : String)
        → apply_operations recorder (send text ∷ []) (recorded c) ≡ record {
          state = c.raw_state;
          tags = c.tag_list;
          frames = sends c.operations ++ sends (send text ∷ []);
          closed = c.closed;
          ending = closing c.operations;
        }
    unfolding apply_operations sends
    once_sent text = go c.closed is_open
      where
        go :
            (shut : Bool)
            → shut ≡ false
            → apply_operations recorder (send text ∷ []) (record {
              state = c.raw_state;
              tags = c.tag_list;
              frames = sends c.operations;
              closed = shut;
              ending = closing c.operations;
            })
              ≡ record {
                state = c.raw_state;
                tags = c.tag_list;
                frames = sends c.operations ++ text ∷ [];
                closed = shut;
                ending = closing c.operations;
              }
        go true h = absurd (cc)
        go false h = refl

    pub send-IsBuffered :
        (text : String) → IsBuffered w raw_state tag_list limits (append w (send text) c).1
    send-IsBuffered text = append-IsBuffered (send text) c b (λ room space.
        grow (send text) c c.raw_state c.tag_list c.closed b is_open room space (sym is_open)
          (once_sent text))

    append_nil : (l : List String) → l ++ [] ≡ l
    append_nil [] = refl
    append_nil (x ∷ l) = ap (λ r. x ∷ r) (append_nil l)

    pub state-IsBuffered :
        (v : Json)
        → IsBuffered w raw_state tag_list limits
            (then_set w (append w (state v) c) (λ c'. record c' { raw_state = v })).1
    unfolding apply_operations sends
    state-IsBuffered v =
        then_set-IsBuffered (state v) c b (λ c'. record c' { raw_state = v })
          (λ room space. grow (state v) c v c.tag_list c.closed b is_open room space (sym is_open) (
            ap
              (λ l. record {
                state = v;
                tags = c.tag_list;
                frames = l;
                closed = c.closed;
                ending = closing c.operations;
              })
              (sym (append_nil (sends c.operations)))))

    pub tags-IsBuffered :
        (v : List String)
        → IsBuffered w raw_state tag_list limits
            (then_set w (append w (tags v) c) (λ c'. record c' { tag_list = v })).1
    unfolding apply_operations sends
    tags-IsBuffered v =
        then_set-IsBuffered (tags v) c b (λ c'. record c' { tag_list = v })
          (λ room space. grow (tags v) c c.raw_state v c.closed b is_open room space (sym is_open) (
            ap
              (λ l. record {
                state = c.raw_state;
                tags = v;
                frames = l;
                closed = c.closed;
                ending = closing c.operations;
              })
              (sym (append_nil (sends c.operations)))))

    pub close-IsBuffered :
        (code : ℤ) (reason : String)
        → IsBuffered w raw_state tag_list limits
            (then_set w (append w (close code reason) c) (λ c'. record c' { closed = true })).1
    unfolding apply_operations sends
    close-IsBuffered code reason =
        then_set-IsBuffered (close code reason) c b (λ c'. record c' { closed = true })
          (λ room space.
            grow (close code reason) c c.raw_state c.tag_list true b is_open room space refl (
              ap
                (λ l. record {
                  state = c.raw_state;
                  tags = c.tag_list;
                  frames = l;
                  closed = true;
                  ending = some (code, reason);
                })
                (sym (append_nil (sends c.operations)))))
