-- ===== src/Relay/Accepted.antt =====
-- The logs that the decoder accepts, whoever has written them.
use agents_python_cloudflare.Prelude.{
  suc, ◌≤◌, ◌≡◌, refl, ap, String, Bool, true, false, Option, none, some, List, [], ◌∷◌, arith,
  length, ltb, Bool-cases, inl, inr, if◌then◌else◌,
}
use agents_python_cloudflare.Json.{Json, array, Items, nil, cons, utf8_length}
use agents_python_cloudflare.Relay.Connection.{
  Wire, RelayLimits, RelayOperation, frame_limit, byte_limit, Result, raised, returned,
}
use agents_python_cloudflare.Relay.Log.{
  count_items, decode_operation, decode_items, decode_parsed, decode_operation_log, is_close,
  prepended,
}
use agents_python_cloudflare.Relay.Applying.{closes_last, is_nil}

abbrev value_or : Result (List RelayOperation) → List RelayOperation → List RelayOperation
value_or (returned ops) other = ops
value_or (raised e) other = other

-- What is known of the operations that some items decode to.
record IsDecoded (closed : Bool) (items : Items) (ops : List RelayOperation) : Type 0 where
  count : length ops ≡ count_items items
  closes : closes_last ops ≡ true
  after : closed ≡ true → is_nil ops ≡ true

prepended-IsDecoded :
    (operation : RelayOperation) (item : Json) (items : Items) (ops : List RelayOperation)
    (rest : Result (List RelayOperation))
    → ((later : List RelayOperation)
        → rest ≡ returned later
        → IsDecoded (is_close operation) items later)
    → prepended operation rest ≡ returned ops
    → IsDecoded false (cons item items) ops
unfolding count_items closes_last
prepended-IsDecoded operation item items ops (raised e) known h = absurd (cc)
prepended-IsDecoded operation item items ops (returned later) known h =
    let d = known later refl in
    let e : operation ∷ later ≡ ops = ap (λ r. value_or r ops) h in
    rw⁻¹ e (record {
      count = ap suc d.count;
      closes = go (is_close operation) d.after d.closes;
      after = λ c. absurd (cc);
    })
  where
    go :
        (b : Bool)
        → (b ≡ true → is_nil later ≡ true)
        → closes_last later ≡ true
        → (if b then is_nil later else closes_last later) ≡ true
    go true after closes = after refl
    go false after closes = closes

decode_items-IsDecoded :
    (closed : Bool) (items : Items) (ops : List RelayOperation)
    → decode_items closed items ≡ returned ops
    → IsDecoded closed items ops
unfolding decode_items count_items closes_last
decode_items-IsDecoded closed nil ops h =
    let e : [] ≡ ops = ap (λ r. value_or r ops) h in
    rw⁻¹ e (record { count = refl; closes = refl; after = λ c. refl })
decode_items-IsDecoded true (cons item items) ops h = absurd (cc)
decode_items-IsDecoded false (cons item items) ops h =
    go (decode_operation item) (λ closes later. decode_items-IsDecoded closes items later) h
  where
    go :
        (x : Result RelayOperation)
        → ((closes : Bool) (later : List RelayOperation)
            → decode_items closes items ≡ returned later
            → IsDecoded closes items later)
        → (elim x [
          | raised e ↦ raised e
          | returned operation ↦ prepended operation (decode_items (is_close operation) items)
        ])
          ≡ returned ops
        → IsDecoded false (cons item items) ops
    go (raised e) known k = absurd (cc)
    go (returned operation) known k =
        prepended-IsDecoded operation item items ops (decode_items (is_close operation) items)
          (known (is_close operation)) k

parsed_bound :
    (limits : RelayLimits) (value : Option Json) (ops : List RelayOperation)
    → decode_parsed limits value ≡ returned ops
    → (length ops ≤ limits.max_frames) × (closes_last ops ≡ true)
parsed_bound limits none ops h = absurd (cc)
parsed_bound limits (some (array items)) ops h =
    elim (Bool-cases (ltb limits.max_frames (count_items items))) [
      | inl many ↦ absurd (let e : raised frame_limit ≡ returned ops = rw many at h in cc)
      | inr few ↦
          let d = decode_items-IsDecoded false items ops (rw few at h) in
          (let c = d.count in ground arith, d.closes)
    ]
parsed_bound limits (some v) ops h = absurd (cc)

-- The log that a sub-agent sends is not trusted. Of whatever text, a log that is accepted is within the
-- limit of bytes, has at most the allowed number of operations, and nothing in it follows a close.
pub decode_operation_log-bounds :
    (w : Wire) (raw : String) (limits : RelayLimits) (ops : List RelayOperation)
    → decode_operation_log w raw limits ≡ returned ops
    → (utf8_length raw ≤ limits.max_bytes)
      × ((length ops ≤ limits.max_frames) × (closes_last ops ≡ true))
unfolding decode_operation_log
decode_operation_log-bounds w raw limits ops h =
    elim (Bool-cases (ltb limits.max_bytes (utf8_length raw))) [
      | inl big ↦
          absurd
            (let e : raised byte_limit ≡ returned ops = rw (big, decode_operation_log) at h in cc)
      | inr small ↦ (
        ground arith,
        parsed_bound limits (w.loads raw) ops (rw (small, decode_operation_log) at h),
      )
    ]
