-- ===== src/Tasks/Joining.antt =====
-- Accepting a run twice under one idempotency key is accepting it once.
use agents_python_cloudflare.Prelude.{
  ℕ, ◌≡◌, refl, ◌∙◌, ap, sym, String, Bool, true, false, ◌||◌, not, Option, none, some, List, inl,
  inr, arith, eq_iff, eq_refl, holds, coalesce, Bool-cases, Option-cases, ◌==◌,
}
use agents_python_cloudflare.Sql.{exists, first}
use agents_python_cloudflare.Sql.Keys.{IsUnique, IsUnique-IsDistinct, first_unique}
use agents_python_cloudflare.TaskStore.Rows.{RunState, TaskRunRow, TaskStore}
use agents_python_cloudflare.TaskStore.Runs.{
  get, get_by_idempotency_key, insert_pending, pending_row, taken_key,
}
use agents_python_cloudflare.TaskStore.Invariant.{IsValid, run-IsValid, same_key, has_value}
use agents_python_cloudflare.TaskStore.View.{get-run_id}
use agents_python_cloudflare.TaskStore.Trace.{Op, run}
use agents_python_cloudflare.TaskStore.Effect.Apply.{AllKeeping}
use agents_python_cloudflare.TaskStore.Finality.{stored_run-run}
use agents_python_cloudflare.Tasks.Callers.{
  TaskReceipt, Request, Accepted, receives, joined_receipt, existing_run, accept, inserted,
  is_identifier, by_run_id, by_key, or_else,
}
use agents_python_cloudflare.Tasks.Writing.{accept-Writes}
use agents_python_cloudflare.Tasks.Actions.{ByOps-IsValid}

same_value :
    (key : String) (o p : Option String)
    → holds o key ≡ true
    → holds p key ≡ true
    → has_value o p ≡ true
same_value key none p h k = cc
same_value key (some a) p h k = let e : a ≡ key = (eq_iff a key).0 h in rw e k

module _ (key : String) (s : TaskStore) (v : IsValid s) where
  key-IsUnique : IsUnique (λ (x : TaskRunRow). holds x.idempotency_key key) s.runs
  key-IsUnique =
      IsUnique-IsDistinct same_key _ s.runs
        (λ x y hx hy. same_value key x.idempotency_key y.idempotency_key hx hy) v.idempotency_keys

  -- The run of an id that has a key is the run of that key.
  by_key-get :
      (k : String) (r : TaskRunRow)
      → get k s ≡ some r
      → holds r.idempotency_key key ≡ true
      → get_by_idempotency_key key s ≡ some r
  unfolding get get_by_idempotency_key
  by_key-get k r stored has = first_unique _ _ s.runs key-IsUnique stored has

abbrev is_rejected : Request → Bool
is_rejected request =
    not (is_identifier request.run_id) || not (is_identifier request.idempotency_key)

-- The request of a receipt: a run is stored under its id, as the request describes it.
record IsAccepted (request : Request) (receipt : TaskReceipt) (s : TaskStore) : Type 0 where
  row : TaskRunRow
  stored : get receipt.run_id s ≡ some row
  definition : row.definition ≡ request.definition
  key : row.idempotency_key ≡ request.idempotency_key
  created_at : row.created_at ≡ receipt.created_at
  requested : (id : String) → request.run_id ≡ some id → id ≡ receipt.run_id
  ok : is_rejected request ≡ false
  named : receipt.definition ≡ request.definition

module _ (generated : String) (created_at : ℕ) (request : Request) (s : TaskStore) where
  accept_rejected :
      is_rejected request ≡ true
      → (accept generated created_at request s).0 ≡ Accepted.invalid_identifier
  unfolding accept
  accept_rejected h = rw h refl

  accept_joined :
      (r : TaskRunRow)
      → is_rejected request ≡ false
      → existing_run request s ≡ some r
      → accept generated created_at request s
        ≡ (joined_receipt r request.definition request.idempotency_key, s)
  unfolding accept
  accept_joined r h e = rw (h, accept) (rw (e, accept) refl)

  accept_missing :
      is_rejected request ≡ false
      → existing_run request s ≡ none
      → accept generated created_at request s
        ≡ inserted (coalesce request.run_id generated) created_at request s (
            insert_pending
              (coalesce request.run_id generated)
              request.definition
              request.input_json
              request.metadata_json
              request.idempotency_key
              request.retain
              created_at
              s)
  unfolding accept
  accept_missing h e = rw (h, accept) (rw (e, accept) refl)

abbrev receipt_of : Accepted → TaskReceipt → TaskReceipt
receipt_of (receives receipt) other = receipt
receipt_of _ other = other

-- A receipt for a run that is joined says so.
joined_not_new :
    (r : TaskRunRow) (definition : String) (key : Option String) (receipt : TaskReceipt)
    → joined_receipt r definition key ≡ receives receipt
    → receipt.accepted ≡ false
unfolding joined_receipt
joined_not_new r definition key receipt e = ground arith

abbrev new_receipt : String → ℕ → Request → TaskReceipt
new_receipt id created_at request = record {
  run_id = id;
  definition = request.definition;
  accepted = true;
  state = RunState.pending;
  created_at = created_at;
}

-- A new run is found afterwards.
inserted_new :
    (id : String) (created_at : ℕ) (request : Request) (s : TaskStore) (receipt : TaskReceipt)
    → let x = inserted id created_at request s (
        insert_pending id request.definition request.input_json request.metadata_json
          request.idempotency_key request.retain created_at s) in
      x.0 ≡ receives receipt
      → ((requested : String) → request.run_id ≡ some requested → requested ≡ id)
      → is_rejected request ≡ false
      → IsAccepted request receipt x.1
unfolding insert_pending get first
inserted_new id created_at request s receipt e named ok =
    elim (Bool-cases
      (exists (λ r. r.run_id == id) s.runs || taken_key request.idempotency_key s.runs)) [
        | inl taken ↦
            absurd (let e2 : Accepted.storage_error ≡ receives receipt = rw taken at e in cc)
        | inr free ↦ rw free (
            let e2 : receives (new_receipt id created_at request) ≡ receives receipt =
              rw free at e in
            let same : id ≡ receipt.run_id = ap (λ a. (receipt_of a receipt).run_id) e2 in
            let hit : (id == receipt.run_id) ≡ true = (eq_iff id receipt.run_id).1 same in
            record {
              row =
                  pending_row id request.definition request.input_json request.metadata_json
                    request.idempotency_key request.retain created_at;
              stored = rw hit refl;
              definition = refl;
              key = refl;
              created_at = ap (λ a. (receipt_of a receipt).created_at) e2;
              requested = λ k given. named k given ∙ same;
              ok = ok;
              named = sym (ap (λ a. (receipt_of a receipt).definition) e2);
            })
      ]

accept_new :
    (generated : String) (created_at : ℕ) (request : Request) (s : TaskStore)
    (receipt : TaskReceipt)
    → (accept generated created_at request s).0 ≡ receives receipt
    → receipt.accepted ≡ true
    → IsAccepted request receipt (accept generated created_at request s).1
accept_new generated created_at request s receipt e new = elim (Bool-cases (is_rejected request)) [
  | inl bad ↦ absurd (let e2 = accept_rejected generated created_at request s bad in cc)
  | inr ok ↦ elim (Option-cases (existing_run request s)) [
    | inl missing ↦
        let reduced = accept_missing generated created_at request s ok missing in
        rw reduced (
          inserted_new (coalesce request.run_id generated) created_at request s receipt
            (rw reduced at e) (λ k given. rw given refl) ok)
    | inr (r, found) ↦
        let e2 = accept_joined generated created_at request s r ok found in
        let joined : joined_receipt r request.definition request.idempotency_key
            ≡ receives receipt =
          rw e2 at e in
        absurd (
          let old = joined_not_new r request.definition request.idempotency_key receipt joined in
          cc)
  ]
]

-- What a later call joins: the run by its id where the call names one, and by its key else.
joins :
    (request : Request) (key : String) (id : String) (r : TaskRunRow) (s : TaskStore)
    → IsValid s
    → get id s ≡ some r
    → request.idempotency_key ≡ some key
    → r.idempotency_key ≡ some key
    → ((k : String) → request.run_id ≡ some k → k ≡ id)
    → existing_run request s ≡ some r
unfolding existing_run
joins request key id r s v stored keyed has named = go request.run_id named
  where
    found : by_key request.idempotency_key s ≡ some r
    found = rw keyed (by_key-get key s v id r stored (rw has (eq_refl key)))

    go :
        (o : Option String)
        → ((k : String) → o ≡ some k → k ≡ id)
        → or_else (by_run_id o s) (by_key request.idempotency_key s) ≡ some r
    go none h = found
    go (some k) h = rw (h k refl, stored) refl

rejoined :
    (r : TaskRunRow) (receipt : TaskReceipt) (definition key : String)
    → r.run_id ≡ receipt.run_id
    → receipt.definition ≡ definition
    → r.definition ≡ definition
    → r.created_at ≡ receipt.created_at
    → r.idempotency_key ≡ some key
    → joined_receipt r definition (some key)
      ≡ receives (record receipt { accepted = false; state = r.state })
unfolding joined_receipt
rejoined r receipt definition key id named same made keyed =
    rw ((eq_iff r.definition definition).1 same, keyed, eq_refl key, same, id, named, made) refl

-- A call of `run` that is made again joins. On valid tables, let a call with an idempotency key have
-- been accepted as a new run. After any operations that delete no run, the same call, whatever id
-- would be generated and whatever the time, is answered by a receipt that is not a new acceptance, for
-- the same run, definition and creation time, and changes nothing.
pub accept-accept :
    (generated generated' : String) (created_at created_at' : ℕ) (request : Request) (s : TaskStore)
    (receipt : TaskReceipt) (key : String) (ops : List Op)
    → IsValid s
    → request.idempotency_key ≡ some key
    → (accept generated created_at request s).0 ≡ receives receipt
    → receipt.accepted ≡ true
    → AllKeeping ops
    → (state : RunState) × (accept generated' created_at' request
          (run ops (accept generated created_at request s).1)
        ≡ (
          receives (record receipt { accepted = false; state = state }),
          run ops (accept generated created_at request s).1,
        ))
accept-accept generated generated' created_at created_at' request s receipt key ops valid keyed e
      new keeping =
    let s1 : TaskStore = (accept generated created_at request s).1 in
    let a = accept_new generated created_at request s receipt e new in
    let (r, stored, advances) = stored_run-run ops keeping s1 receipt.run_id a.row a.stored in
    let later_valid : IsValid (run ops s1) =
      run-IsValid ops s1
        (ByOps-IsValid (accept-Writes generated created_at request s).writes valid) in
    let found =
      joins request key receipt.run_id r (run ops s1) later_valid stored keyed
        (advances.idempotency_key ∙ a.key ∙ keyed) a.requested in
    let same_key : joined_receipt r request.definition request.idempotency_key
        ≡ joined_receipt r request.definition (some key) =
      ap (joined_receipt r request.definition) keyed in
    (
      r.state,
      accept_joined generated' created_at' request (run ops s1) r a.ok found
          ∙ ap (λ x. (x, run ops s1))
              (same_key
                ∙ rejoined r receipt request.definition key
                    (get-run_id receipt.run_id (run ops s1) stored) a.named
                    (advances.definition ∙ a.definition) (advances.created_at ∙ a.created_at)
                    (advances.idempotency_key ∙ a.key ∙ keyed)),
    )
