-- ===== src/Driver/Open.antt =====
-- A claim that is open, through the single calls of the driver.
use agents_python_cloudflare.Prelude.{
  ℕ, suc, ◌-◌, ◌≤◌, ◌≡◌, refl, String, Bool, true, false, ◌||◌, ◌&&◌, not, Option, none, some, ◌∷◌,
  ◌==◌, eqb, arith, eq_iff, eq_refl, Bool-cases, inl, inr, if◌then◌else◌,
}
use agents_python_cloudflare.Jobs.Rows.{JobRow}
use agents_python_cloudflare.Driver.State
use agents_python_cloudflare.Driver.State.{
  Driver, has_tracked_job, version_matches, is_seen, is_tracked, bump, set, is_empty,
}

-- A claim of the job is open, besides `n` further ones, and the job has the version `w`.
pub record IsOpen (job_id : String) (n w : ℕ) (d : Driver) : Type 0 where
  pub open_claims : suc n ≤ d.active_claims job_id
  pub version : d.versions job_id ≡ w
  pub bound : w ≤ d.mutation_sequence

by_if :
    {job_id : String} {n w : ℕ} (b : Bool) (x y : Driver)
    → (b ≡ true → IsOpen job_id n w x)
    → (b ≡ false → IsOpen job_id n w y)
    → IsOpen job_id n w (if b then x else y)
by_if true x y p q = p refl
by_if false x y p q = q refl

module _ (job_id : String) where
  -- A job whose claim is open is not pruned.
  pub prune_version-IsOpen :
      {n w : ℕ} (d : Driver) (other : String)
      → IsOpen job_id n w d
      → IsOpen job_id n w (State.prune_version other d)
  unfolding State.prune_version
  prune_version-IsOpen {n} {w} d other o =
      by_if (not (eqb (d.active_claims other) 0) || has_tracked_job other d) _ _ (λ h. o)
        (λ h. record { open_claims = o.open_claims; version = kept h; bound = o.bound })
    where
      kept :
          (not (eqb (d.active_claims other) 0) || has_tracked_job other d) ≡ false
          → set other 0 d.versions job_id ≡ w
      kept h = elim (Bool-cases (job_id == other)) [
        | inl same ↦ absurd (
            let e : job_id ≡ other = (eq_iff job_id other).0 same in
            let active : suc n ≤ d.active_claims other = rw e at o.open_claims in ground arith)
        | inr apart ↦ rw apart o.version
      ]

  -- The job is touched: its version is a new one.
  bump-same :
      {n w : ℕ} (d : Driver) (other : String)
      → (other == job_id) ≡ true
      → IsOpen job_id n w d
      → IsOpen job_id n (suc d.mutation_sequence) (bump other d)
  bump-same d other same o = record {
    open_claims = o.open_claims;
    version = let e : other ≡ job_id = (eq_iff other job_id).0 same in rw (e, eq_refl job_id) refl;
    bound = omega arith;
  }

  bump-other :
      {n w : ℕ} (d : Driver) (other : String)
      → (other == job_id) ≡ false
      → IsOpen job_id n w d
      → IsOpen job_id n w (bump other d)
  bump-other d other apart o = record {
    open_claims = o.open_claims;
    version =
        let e : (job_id == other) ≡ false =
          ground (arith, eq_iff job_id other, eq_iff other job_id) in
        rw e o.version;
    bound = let b = o.bound in omega arith;
  }

  apart-sym : (other : String) → (other == job_id) ≡ false → (job_id == other) ≡ false
  apart-sym other h = ground (arith, eq_iff job_id other, eq_iff other job_id)

  pub note_mutation-same :
      {n w : ℕ} (d : Driver) (other : String)
      → (other == job_id) ≡ true
      → IsOpen job_id n w d
      → IsOpen job_id n (suc d.mutation_sequence) (State.note_mutation other d)
  unfolding State.note_mutation
  note_mutation-same {n} d other same o =
      by_if (eqb (d.active_claims other) 0 && not (has_tracked_job other d)) _ _
        (λ h. absurd (
          let e : other ≡ job_id = (eq_iff other job_id).0 same in
          let active : suc n ≤ d.active_claims other = rw e o.open_claims in ground arith))
        (λ h. bump-same d other same o)

  pub note_mutation-other :
      {n w : ℕ} (d : Driver) (other : String)
      → (other == job_id) ≡ false
      → IsOpen job_id n w d
      → IsOpen job_id n w (State.note_mutation other d)
  unfolding State.note_mutation
  note_mutation-other d other apart o =
      by_if (eqb (d.active_claims other) 0 && not (has_tracked_job other d)) _ _ (λ h. o)
        (λ h. bump-other d other apart o)

  pub begin_claim-same :
      {n w : ℕ} (d : Driver) (other : String)
      → (other == job_id) ≡ true
      → IsOpen job_id n w d
      → IsOpen job_id (suc n) (suc d.mutation_sequence) (State.begin_claim other d).1
  unfolding State.begin_claim
  begin_claim-same {n} d other same o =
      let b = bump-same d other same o in
      let e : other ≡ job_id = (eq_iff other job_id).0 same in
      record {
        open_claims =
            let active : suc n ≤ d.active_claims job_id = o.open_claims in
            rw (e, eq_refl job_id) (omega arith);
        version = b.version;
        bound = b.bound;
      }

  pub begin_claim-other :
      {n w : ℕ} (d : Driver) (other : String)
      → (other == job_id) ≡ false
      → IsOpen job_id n w d
      → IsOpen job_id n w (State.begin_claim other d).1
  unfolding State.begin_claim
  begin_claim-other d other apart o =
      let b = bump-other d other apart o in
      record {
        open_claims = rw (apart-sym other apart) o.open_claims;
        version = b.version;
        bound = b.bound;
      }

  pub end_claim-same :
      {n w : ℕ} (d : Driver) (other : String) (preserve_version : Bool)
      → (other == job_id) ≡ true
      → IsOpen job_id (suc n) w d
      → IsOpen job_id n w (State.end_claim other preserve_version d)
  unfolding State.end_claim
  end_claim-same {n} {w} d other preserve_version same o =
      by_if (not (eqb (d.active_claims other - 1) 0) || preserve_version) _ _ (λ h. left)
        (λ h. prune_version-IsOpen _ other left)
    where
      left :
          IsOpen job_id n w
            (record d { active_claims = set other (d.active_claims other - 1) d.active_claims })
      left =
          let e : other ≡ job_id = (eq_iff other job_id).0 same in
          record {
            open_claims =
                let active : suc (suc n) ≤ d.active_claims job_id = o.open_claims in
                rw (e, eq_refl job_id) (omega arith);
            version = o.version;
            bound = o.bound;
          }

  pub end_claim-other :
      {n w : ℕ} (d : Driver) (other : String) (preserve_version : Bool)
      → (other == job_id) ≡ false
      → IsOpen job_id n w d
      → IsOpen job_id n w (State.end_claim other preserve_version d)
  unfolding State.end_claim
  end_claim-other {n} {w} d other preserve_version apart o =
      by_if (not (eqb (d.active_claims other - 1) 0) || preserve_version) _ _ (λ h. left)
        (λ h. prune_version-IsOpen _ other left)
    where
      left :
          IsOpen job_id n w
            (record d { active_claims = set other (d.active_claims other - 1) d.active_claims })
      left = record {
        open_claims = rw (apart-sym other apart) o.open_claims;
        version = o.version;
        bound = o.bound;
      }

  pub seen-IsOpen :
      {n w : ℕ} (d : Driver)
      → IsOpen job_id n w d
      → IsOpen job_id n w (State.prune_seen_if_quiescent d)
  unfolding State.prune_seen_if_quiescent
  seen-IsOpen d o =
      by_if (eqb d.active_alarms 0 && is_empty d.tracked) _ _
        (λ h. record { open_claims = o.open_claims; version = o.version; bound = o.bound }) (λ h. o)

  pub track-IsOpen :
      {n w : ℕ} (d : Driver) (executing : Option (JobRow × ℕ)) (awaitable : ℕ) (accepted : Bool)
      → IsOpen job_id n w d
      → IsOpen job_id n w (State.track executing awaitable accepted d).1
  unfolding State.track
  track-IsOpen {n} {w} d none awaitable accepted o = o
  track-IsOpen {n} {w} d (some (row, version)) awaitable accepted o =
      go (is_seen awaitable d.seen) (is_tracked awaitable d.tracked) accepted
    where
      go :
          (a b c : Bool)
          → IsOpen job_id n w (
              let x : Bool × Driver =
                if a
                then (true, d)
                else if b
                then (true, record d { seen = awaitable ∷ d.seen })
                else if c
                then (
                  true,
                  record d {
                    tracked = (awaitable, record { row = row; version = version }) ∷ d.tracked;
                    seen = awaitable ∷ d.seen;
                  },
                )
                else (false, d) in
              x.1)
      go true b c = o
      go false true c = record { open_claims = o.open_claims; version = o.version; bound = o.bound }
      go false false true = record {
        open_claims = o.open_claims;
        version = o.version;
        bound = o.bound;
      }
      go false false false = o
