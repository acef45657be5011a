-- ===== src/Relay/Session.antt =====
-- `RelaySession` and `relay_round_trip`: a sub-agent's part of a relay, and its parent's.
use agents_python_cloudflare.Prelude.{
  ◌≡◌, refl, ap, ℕ, ◌≤◌, String, Bool, true, false, Option, none, some, List, [], ◌∷◌, ◌==◌, eqb,
  if◌then◌else◌, arith, eq_iff, eq_refl,
}
use agents_python_cloudflare.Json.{Json, ℤ}
use agents_python_cloudflare.Relay.Connection.{
  Wire, RelayLimits, RelayOperation, Result, raised, returned, new_connection, wire_items,
  operation_log,
}
use agents_python_cloudflare.Relay.Log.{RelaySink, decode_operation_log, apply_operations}
use agents_python_cloudflare.Relay.Trace.{Action, run, recorder, recorded}
use agents_python_cloudflare.Relay.RoundTrip.{operation_log-decodes, IsCompact}
use agents_python_cloudflare.Relay.Buffered.{opened}

-- The connections of the sub-agent by their keys; a number is an object that `is` compares.
abbrev pub Connections : Type 0
Connections = List (String × ℕ)

unfoldable pub bound : String → Connections → Option ℕ
bound key [] = none
bound key ((other, c) ∷ rest) = let later = bound key rest in if other == key then some c else later

unfoldable pub bind : String → ℕ → Connections → Connections
bind key c [] = (key, c) ∷ []
bind key c ((other, d) ∷ rest) =
    let later = bind key c rest in if other == key then (other, c) ∷ rest else (other, d) ∷ later

unfoldable pub unbind : String → Connections → Connections
unbind key [] = []
unbind key ((other, d) ∷ rest) =
    let later = unbind key rest in if other == key then later else (other, d) ∷ later

pub record RelaySession : Type 0 where
  pub key : String
  pub connection : ℕ

abbrev pub new_session : ℕ → String → Option String → RelaySession
new_session connection id key = record {
  key = elim key [ none ↦ id | some k ↦ if k == "" then id else k ];
  connection = connection;
}

unfoldable pub enter : RelaySession → Connections → Connections
unfolding bind
enter s connections = bind s.key s.connection connections

abbrev pub is_own : RelaySession → Option ℕ → Bool
is_own s none = false
is_own s (some c) = eqb c s.connection

unfoldable pub exit : RelaySession → Connections → Connections
unfolding bound unbind
exit s connections =
    if is_own s (bound s.key connections) then unbind s.key connections else connections

-- How the call of the sub-agent ends: it raises, in time or by the timeout, or it returns something
-- that is a text or not.
pub data Forwarded : Type 0 where
  failed : Forwarded
  not_text : Forwarded
  answered : String → Forwarded

module _ {S : Type 0} (sink : RelaySink S) where
  abbrev pub relay_decoded : Result (List RelayOperation) → S → Bool × S
  relay_decoded (returned operations) s = (true, apply_operations sink operations s)
  relay_decoded (raised e) s = (false, sink.close_sink (ℤ.pos 1011) "Sub-agent relay failed" s)

  -- Whether it returns, and the connection after it.
  unfoldable pub relay_round_trip : Wire → Forwarded → RelayLimits → S → Bool × S
  unfolding decode_operation_log
  relay_round_trip w (answered raw) limits s = relay_decoded (decode_operation_log w raw limits) s
  relay_round_trip w forwarded limits s =
      (false, sink.close_sink (ℤ.pos 1011) "Sub-agent relay failed" s)

bound-bind :
    (k key : String) (c : ℕ) (m : Connections)
    → bound k (bind key c m) ≡ (if key == k then some c else bound k m)
unfolding bound bind
bound-bind k key c [] = refl
bound-bind k key c ((other, d) ∷ m) =
    ground (arith, bound-bind k key c m, eq_iff other key, eq_iff key k, eq_iff other k)

bound-unbind :
    (k key : String) (m : Connections)
    → bound k (unbind key m) ≡ (if key == k then none else bound k m)
unfolding bound unbind
bound-unbind k key [] = ground arith
bound-unbind k key ((other, d) ∷ m) =
    ground (arith, bound-unbind k key m, eq_iff other key, eq_iff key k, eq_iff other k)

-- What a sub-agent does to its connection is what the parent's connection comes to be, by one round
-- trip. Let any calls be made on a new buffered connection, those that raise included, and let its log
-- be forwarded. Then the round trip returns, after replaying exactly the recorded operations on the
-- parent's connection, whatever that does with them. If it is one that keeps what it is told, is open,
-- and began with the same state and tags, then it has afterwards the state, the tags and the closedness
-- of the buffered one, has sent its frames in their order, and was closed with the code and the reason
-- of its last recorded close, if there is one. The limits are the same on both sides, of two bytes at
-- least, and the log's text is JSON that is read back, without spaces.
pub relay_round_trip-run :
    (w : Wire) (raw_state : Json) (tag_list : List String) (limits : RelayLimits)
    (actions : List Action)
    → IsCompact w (wire_items (run w actions (new_connection raw_state tag_list limits)).operations)
    → 2 ≤ limits.max_bytes
    → let c = run w actions (new_connection raw_state tag_list limits) in
      ((S : Type 0) (sink : RelaySink S) (s : S)
        → relay_round_trip sink w (answered (operation_log w c)) limits s
          ≡ (true, apply_operations sink c.operations s))
      × (relay_round_trip recorder w
            (answered (operation_log w c))
            limits
            (opened raw_state tag_list)
          ≡ (true, recorded c))
unfolding relay_round_trip
relay_round_trip-run w raw_state tag_list limits actions compact room =
    let (decodes, applied) =
      operation_log-decodes w raw_state tag_list limits actions compact room in
    ((λ S sink s. rw decodes refl), rw decodes (ap (λ s. (true, s)) applied))

-- A session that ends unbinds its key where it is still bound to its own connection, and only then:
-- where a later session has taken the key over, that one keeps it. Every other key is as it was.
pub exit-enter :
    (s later : RelaySession) (connections : Connections) (k : String)
    → (bound k (exit s (enter s connections)) ≡ (if s.key == k then none else bound k connections))
      × (later.key ≡ s.key
          → eqb later.connection s.connection ≡ false
          → exit s (enter later (enter s connections)) ≡ enter later (enter s connections))
unfolding enter exit
exit-enter s later connections k = (ended, taken_over)
  where
    held : is_own s (bound s.key (bind s.key s.connection connections)) ≡ true
    held = rw (bound-bind s.key s.key s.connection connections) (ground (arith, eq_refl s.key))

    ended :
        bound k (exit s (enter s connections)) ≡ (if s.key == k then none else bound k connections)
    ended =
        rw (held, exit)
          (ground (
            arith,
            bound-unbind k s.key (bind s.key s.connection connections),
            bound-bind k s.key s.connection connections,
          ))

    taken_over :
        later.key ≡ s.key
        → eqb later.connection s.connection ≡ false
        → exit s (enter later (enter s connections)) ≡ enter later (enter s connections)
    taken_over same_key other =
        let lost : is_own s (bound s.key (enter later (enter s connections))) ≡ false =
          rw (bound-bind s.key later.key later.connection (enter s connections))
            (let e = (eq_iff later.key s.key).1 same_key in rw e other) in
        rw (lost, exit) refl
