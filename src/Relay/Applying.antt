-- ===== src/Relay/Applying.antt =====
-- Logs in which nothing follows a close: how they decode, and how they are applied.
use agents_python_cloudflare.Prelude.{
  none, ◌≡◌, refl, ap, String, Bool, true, false, ◌&&◌, not, some, List, [], ◌∷◌, ◌++◌, arith,
  if◌then◌else◌,
}
use agents_python_cloudflare.Json.{Json, get_key}
use agents_python_cloudflare.Relay.Connection.{
  RelayOperation, send, state, tags, close, returned, texts, operation_wire, wire_items,
}
use agents_python_cloudflare.Relay.Log.{
  all_texts, decode_operation, decode_items, is_close, prepended, apply_operations, keys_among,
  has_keys, same_keys,
}
use agents_python_cloudflare.Relay.Trace.{Recorder, recorder, sends, closing, ending_after}

unfoldable pub no_close : List RelayOperation → Bool
no_close [] = true
no_close (operation ∷ rest) = not (is_close operation) && no_close rest

abbrev pub is_nil : List RelayOperation → Bool
is_nil [] = true
is_nil (operation ∷ rest) = false

-- Nothing follows a close.
unfoldable pub closes_last : List RelayOperation → Bool
closes_last [] = true
closes_last (operation ∷ rest) =
    let later = closes_last rest in if is_close operation then is_nil rest else later

pub closes_last-append :
    (ops : List RelayOperation) (operation : RelayOperation)
    → no_close ops ≡ true
    → closes_last (ops ++ operation ∷ []) ≡ true
unfolding closes_last no_close
closes_last-append [] operation h = ground arith
closes_last-append (a ∷ ops) operation h = ground (arith, closes_last-append ops operation)

pub no_close-append :
    (ops : List RelayOperation) (operation : RelayOperation)
    → no_close ops ≡ true
    → no_close (ops ++ operation ∷ []) ≡ not (is_close operation)
unfolding no_close
no_close-append [] operation h = ground arith
no_close-append (a ∷ ops) operation h = ground (arith, no_close-append ops operation)

all_texts-texts : (tags : List String) → all_texts (texts tags) ≡ some tags
unfolding all_texts texts
all_texts-texts [] = refl
all_texts-texts (s ∷ rest) = rw (all_texts-texts rest) refl

pub decode_operation-wire :
    (operation : RelayOperation) → decode_operation (operation_wire operation) ≡ returned operation
unfolding decode_operation operation_wire get_key keys_among has_keys same_keys
decode_operation-wire (send payload) = refl
decode_operation-wire (state payload) = refl
decode_operation-wire (tags payload) = rw (all_texts-texts payload) refl
decode_operation-wire (close code reason) = refl

-- A log in which nothing follows a close is read back.
pub decode_items-wire :
    (ops : List RelayOperation)
    → closes_last ops ≡ true
    → decode_items false (wire_items ops) ≡ returned ops
unfolding decode_items wire_items closes_last
decode_items-wire [] h = refl
decode_items-wire (operation ∷ ops) h =
    rw (decode_operation-wire operation, decode_items)
      (go (is_close operation) ops h (decode_items-wire ops))
  where
    go :
        (b : Bool) (ops : List RelayOperation)
        → (if b then is_nil ops else closes_last ops) ≡ true
        → (closes_last ops ≡ true → decode_items false (wire_items ops) ≡ returned ops)
        → prepended operation (decode_items b (wire_items ops)) ≡ returned (operation ∷ ops)
    go true [] h ih = refl
    go true (a ∷ ops) h ih = absurd (cc)
    go false ops h ih = rw (ih h) refl

pub sends-append : (ops rest : List RelayOperation) → sends (ops ++ rest) ≡ sends ops ++ sends rest
unfolding sends
sends-append [] rest = refl
sends-append (send text ∷ ops) rest = ap (λ l. text ∷ l) (sends-append ops rest)
sends-append (state v ∷ ops) rest = sends-append ops rest
sends-append (tags v ∷ ops) rest = sends-append ops rest
sends-append (close code reason ∷ ops) rest = sends-append ops rest

-- What comes after a log without a close is applied to what the log leaves of an open sink.
pub apply_operations-append :
    (ops rest : List RelayOperation) (raw_state : Json) (tag_list frames : List String)
    → no_close ops ≡ true
    → let s : Recorder = record {
      state = raw_state;
      tags = tag_list;
      frames = frames;
      closed = false;
      ending = none;
    } in
      apply_operations recorder (ops ++ rest) s
      ≡ apply_operations recorder rest (apply_operations recorder ops s)
unfolding apply_operations no_close
apply_operations-append [] rest raw_state tag_list frames h = refl
apply_operations-append (send text ∷ ops) rest raw_state tag_list frames h =
    apply_operations-append ops rest raw_state tag_list (frames ++ text ∷ []) h
apply_operations-append (state v ∷ ops) rest raw_state tag_list frames h =
    apply_operations-append ops rest v tag_list frames h
apply_operations-append (tags v ∷ ops) rest raw_state tag_list frames h =
    apply_operations-append ops rest raw_state v frames h
apply_operations-append (close code reason ∷ ops) rest raw_state tag_list frames h = absurd (cc)

pub closing-append :
    (ops : List RelayOperation) (operation : RelayOperation)
    → closing (ops ++ operation ∷ []) ≡ ending_after operation (closing ops)
unfolding closing
closing-append [] (close code reason) = refl
closing-append [] (send text) = refl
closing-append [] (state v) = refl
closing-append [] (tags v) = refl
closing-append (a ∷ ops) (close code reason) = rw (closing-append ops (close code reason)) refl
closing-append (a ∷ ops) (send text) = rw (closing-append ops (send text)) refl
closing-append (a ∷ ops) (state v) = rw (closing-append ops (state v)) refl
closing-append (a ∷ ops) (tags v) = rw (closing-append ops (tags v)) refl
