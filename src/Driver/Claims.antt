-- ===== src/Driver/Claims.antt =====
-- What becomes of the outcome of a claimed row, whatever the overlapping alarms of the object do.
use Prim.Native.Nat.{max}
use agents_python_cloudflare.Prelude.{
  ℕ, suc, ◌+◌, ◌<◌, ◌≡◌, refl, String, Bool, true, false, not, Option, none, some, List, [], ◌∷◌,
  ◌==◌, arith, eq_refl, Bool-cases, Option-cases, inl, inr, if◌then◌else◌, ap, sym,
}
use agents_python_cloudflare.Sql.{exists, update}
use agents_python_cloudflare.Jobs.Rows.{JobRow, Outcome, Raising, returned, Wire}
use agents_python_cloudflare.Jobs.Queue.{Table, has_exclusive}
use agents_python_cloudflare.Jobs.Execution.{
  due_row, mark_running, intent_guard, apply_outcome, is_number,
}
use agents_python_cloudflare.Jobs.Intents.{stale_outcome}
use agents_python_cloudflare.Driver.State.{Driver, start_claim, begin_claim}
use agents_python_cloudflare.Driver.Events.{Event, run, touched, lasts}
use agents_python_cloudflare.Driver.Open.{IsOpen}
use agents_python_cloudflare.Driver.Versions.{matches}
use agents_python_cloudflare.Driver.Starts.{HasStarted, run-HasStarted}
use agents_python_cloudflare.Driver.Drive.{
  Picked, skips, runs, runs_already, marked_row, claim_row, claim_job, settle_job,
}

abbrev picked_or : Picked → JobRow → JobRow
picked_or (runs row version) other = row
picked_or _ other = other

abbrev version_or : Picked → ℕ
version_or (runs row version) = version
version_or _ = 0

module _ {J : Type 0} (w : Wire J) where
  -- A claim that was made is that of a due row.
  claim_job-runs :
      (disabled : Bool) (job_id : String) (now : ℕ) (t : Table) (d : Driver) (row : JobRow) (v : ℕ)
      → (claim_job w disabled job_id now t d).0 ≡ runs row v
      → (r : JobRow) × (claim_job w disabled job_id now t d ≡ claim_row r now t d)
  unfolding claim_job
  claim_job-runs true job_id now t d row v h = absurd (cc)
  claim_job-runs false job_id now t d row v h =
      elim (Option-cases (due_row job_id now (has_exclusive w t) t)) [
        | inl missing ↦ absurd (let e : skips ≡ runs row v = rw (missing, claim_job) at h in cc)
        | inr (r, found) ↦ elim (Bool-cases (runs_already r now)) [
          | inl busy ↦ absurd (let e : skips ≡ runs row v = rw (found, claim_job, busy) at h in cc)
          | inr free ↦ (r, rw (found, claim_job) (rw free refl))
        ]
      ]

-- What a claim is known to have done.
record IsClaim (row : JobRow) (v : ℕ) (t : Table) (d : Driver) (t' : Table) (d' : Driver)
    : Type 0 where
  started_at : ℕ
  started : row.execution_started_at ≡ some started_at
  marked : t' ≡ mark_running row.id started_at t
  later : d.last_claim_started_at < started_at
  last : d'.last_claim_started_at ≡ started_at
  is_open : IsOpen row.id 0 v d'

claim_row-IsClaim :
    (r row : JobRow) (v now : ℕ) (t : Table) (d : Driver)
    → (claim_row r now t d).0 ≡ runs row v
    → IsClaim row v t d (claim_row r now t d).1 (claim_row r now t d).2
unfolding begin_claim start_claim
claim_row-IsClaim r row v now t d h =
    let started : ℕ = max now (d.last_claim_started_at + 1) in
    let same : marked_row started r ≡ row = ap (λ p. picked_or p row) h in
    let id : r.id ≡ row.id = ap (λ (x : JobRow). x.id) same in
    let number : suc d.mutation_sequence ≡ v = ap version_or h in
    record {
      started_at = started;
      started = sym (ap (λ (x : JobRow). x.execution_started_at) same);
      marked = ap (λ k. mark_running k started t) id;
      later = omega arith;
      last = refl;
      is_open = record {
        open_claims = rw (id, eq_refl row.id) (omega arith);
        version = rw (id, eq_refl row.id) number;
        bound = omega arith;
      };
    }

module _ {J : Type 0} (w : Wire J) where
  claim_job-IsClaim :
      (disabled : Bool) (job_id : String) (now : ℕ) (t : Table) (d : Driver) (row : JobRow) (v : ℕ)
      → (claim_job w disabled job_id now t d).0 ≡ runs row v
      → let x = claim_job w disabled job_id now t d in IsClaim row v t d x.1 x.2
  claim_job-IsClaim disabled job_id now t d row v h =
      let (r, e) = claim_job-runs w disabled job_id now t d row v h in
      rw e (claim_row-IsClaim r row v now t d (rw e at h))

  -- What becomes of the outcome of a claimed row. Let the driver have claimed a row, and let any calls
  -- of the driver follow, of this alarm or of others, through which that claim lasts. Where none of the
  -- calls touched the job, which is a mutation of it or another claim, the outcome is applied to the
  -- table, whatever that is by then; where one did, the table stays as it is.
  pub settle_job-touched :
      (disabled : Bool) (job_id : String) (now : ℕ) (t t' : Table) (d : Driver) (row : JobRow)
      (v : ℕ) (es : List Event) (outcome : Outcome)
      → (claim_job w disabled job_id now t d).0 ≡ runs row v
      → lasts row.id 0 es ≡ true
      → settle_job false row v outcome t' (run es (claim_job w disabled job_id now t d).2)
        ≡ (if touched row.id es then (returned tt, t') else apply_outcome row outcome t')
  unfolding settle_job
  settle_job-touched disabled job_id now t t' d row v es outcome h still =
      let c = claim_job-IsClaim disabled job_id now t d row v h in
      let e = matches row.id v es 0 (claim_job w disabled job_id now t d).2 still c.is_open in
      rw e (by_not (touched row.id es))
    where
      by_not :
          (b : Bool)
          → ◌≡◌ {A = Raising (Unit {0}) × Table}
              (if not b then apply_outcome row outcome t' else (returned tt, t'))
              (if b then (returned tt, t') else apply_outcome row outcome t')
      by_not true = refl
      by_not false = refl

other_start :
    (row r : JobRow)
    → is_number r.execution_started_at row.execution_started_at ≡ false
    → intent_guard row true r ≡ false
unfolding intent_guard
other_start row r h = ground arith

other_id : (row r : JobRow) → (r.id == row.id) ≡ false → intent_guard row true r ≡ false
unfolding intent_guard
other_id row r h = ground arith

other_number : (o : Option ℕ) (a b : ℕ) → o ≡ some a → a < b → is_number (some b) o ≡ false
other_number none a b h later = absurd (cc)
other_number (some c) a b h later = let e : c ≡ a = cc in ground arith

-- Rows that are marked anew are not those of an older claim.
marked_anew :
    (row : JobRow) (job_id : String) (a b : ℕ) (t : Table)
    → row.id ≡ job_id
    → row.execution_started_at ≡ some a
    → a < b
    → exists (intent_guard row true) (mark_running job_id b t) ≡ false
unfolding exists mark_running update
marked_anew row job_id a b [] same started later = refl
marked_anew row job_id a b (r ∷ t) same started later =
    let rest = marked_anew row job_id a b t same started later in
    elim (Bool-cases (r.id == job_id)) [
      | inl hit ↦
          rw
            (
              hit,
              rest,
              other_start row (record r { running = 1; execution_started_at = some b })
                  (other_number row.execution_started_at a b started later),
            )
            refl
      | inr miss ↦ rw (miss, rest, other_id row r (rw same miss)) refl
    ]

module _ {J : Type 0} (w : Wire J) where
  -- Two claims of one job, of overlapping alarms: once the later one has marked the row, the outcome of
  -- the earlier one changes nothing any more, even where it were applied. Between the claims any calls
  -- of the driver may come, and the table may have become any other.
  pub claim_job-reclaims :
      (disabled disabled' : Bool) (job_id job_id' : String) (now now' : ℕ) (t t' : Table)
      (d : Driver) (row row' : JobRow) (v v' : ℕ) (es : List Event) (outcome : Outcome)
      → (claim_job w disabled job_id now t d).0 ≡ runs row v
      → (claim_job w disabled' job_id' now' t' (run es (claim_job w disabled job_id now t d).2)).0
        ≡ runs row' v'
      → row.id ≡ row'.id
      → (apply_outcome row outcome
          (claim_job w disabled' job_id' now' t'
            (run es (claim_job w disabled job_id now t d).2)).1).1
        ≡ (claim_job w disabled' job_id' now' t' (run es (claim_job w disabled job_id now t d).2)).1
  claim_job-reclaims disabled disabled' job_id job_id' now now' t t' d row row' v v' es outcome h h'
        same =
      let d1 : Driver = (claim_job w disabled job_id now t d).2 in
      let c = claim_job-IsClaim w disabled job_id now t d row v h in
      let c' = claim_job-IsClaim w disabled' job_id' now' t' (run es d1) row' v' h' in
      let kept : HasStarted c.started_at (run es d1) =
        run-HasStarted es d1 (record { started = let l = c.last in omega arith }) in
      let later : c.started_at < c'.started_at =
        let a = kept.started in let b = c'.later in omega arith in
      rw c'.marked (
        stale_outcome row outcome (mark_running row'.id c'.started_at t')
          (marked_anew row row'.id c.started_at c'.started_at t' same c.started later))
