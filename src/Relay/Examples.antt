-- ===== src/Relay/Examples.antt =====
-- The theorems on relays at a connection that gets tags, sends a frame and is closed. Every object has
-- the text of the empty one.
use agents_python_cloudflare.Prelude.{
  ◌≡◌, ◌≤◌, refl, String, List, [], ◌∷◌, some, arith, length, true,
}
use agents_python_cloudflare.Json.{Json, ℤ, null, array, object, utf8_length, get_key}
use agents_python_cloudflare.Relay.Connection.{
  Wire, RelayLimits, RelayOperation, returned, new_connection, wire_items, texts, operation_wire,
  operation_size, operation_log, append, send_data, send_if_open, insert_tags, close_connection,
  BufferedRelayConnection,
}
use agents_python_cloudflare.Relay.Log.{
  RelaySink, apply_operations, decode_operation_log, count_items, decode_items, decode_operation,
  same_keys, keys_among, has_keys, all_texts,
}
use agents_python_cloudflare.Relay.Trace.{Action, step, run, recorder, recorded}
use agents_python_cloudflare.Relay.Applying.{closes_last}
use agents_python_cloudflare.Relay.Session.{answered, relay_round_trip, relay_round_trip-run}
use agents_python_cloudflare.Relay.Buffered.{opened}
use agents_python_cloudflare.Relay.RoundTrip.{IsCompact, items_size}
use agents_python_cloudflare.Relay.Accepted.{decode_operation_log-bounds}

abbrev operations : List RelayOperation
operations =
    RelayOperation.tags ("a" ∷ [])
    ∷ RelayOperation.send "hi"
    ∷ RelayOperation.close (ℤ.pos 1000) ""
    ∷ []

abbrev dumped : Json → String
dumped (object fields) = "{}"
dumped value = "[{},{},{}]"

abbrev codec : Wire
codec = record {
  dumps = dumped;
  loads = λ text. some (array (unfold wire_items in wire_items operations));
}

abbrev limits : RelayLimits
limits = record { max_frames = 3; max_bytes = 64 }

abbrev actions : List Action
actions =
    Action.insert_tags ("a" ∷ [])
    ∷ Action.send_data "hi"
    ∷ Action.close_connection (ℤ.pos 1000) ""
    ∷ Action.send_if_open "late"
    ∷ []

abbrev buffered : BufferedRelayConnection
buffered = run codec actions (new_connection null [] limits)

compact : IsCompact codec (wire_items buffered.operations)
unfolding run step insert_tags send_data close_connection append operation_size wire_items texts
    operation_wire utf8_length items_size count_items send_if_open
compact = record { reads = refl; array_size = refl }

relay_round_trip-run_example :
    ((S : Type 0) (sink : RelaySink S) (s : S)
      → relay_round_trip sink codec (answered (operation_log codec buffered)) limits s
        ≡ (true, apply_operations sink buffered.operations s))
    × (relay_round_trip recorder codec
          (answered (operation_log codec buffered))
          limits
          (opened null [])
        ≡ (true, recorded buffered))
relay_round_trip-run_example =
    relay_round_trip-run codec null [] limits actions compact (ground arith)

accepted : decode_operation_log codec "[{},{},{}]" limits ≡ returned operations
unfolding decode_operation_log utf8_length count_items decode_items decode_operation same_keys
    keys_among has_keys all_texts wire_items texts operation_wire get_key
accepted = refl

decode_operation_log-bounds_example :
    (utf8_length "[{},{},{}]" ≤ 64) × ((length operations ≤ 3) × (closes_last operations ≡ true))
decode_operation_log-bounds_example =
    decode_operation_log-bounds codec "[{},{},{}]" limits operations accepted
