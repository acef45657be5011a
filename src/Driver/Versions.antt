-- ===== src/Driver/Versions.antt =====
-- The version of a claim tells whether the job was touched since.
use agents_python_cloudflare.Prelude.{
  ℕ, zero, suc, ◌<◌, ◌≡◌, refl, String, Bool, true, false, not, Option, none, some, List, [], ◌∷◌,
  ◌==◌, arith, Bool-cases, inl, inr,
}
use mathlib.Core.Path.{subst}
use agents_python_cloudflare.Driver.State
use agents_python_cloudflare.Driver.State.{
  Driver, has_tracked_job, version_matches, is_seen, is_tracked, bump, set, is_empty,
}
use agents_python_cloudflare.Driver.Open.{
  IsOpen, prune_version-IsOpen, note_mutation-same, note_mutation-other, begin_claim-same,
  begin_claim-other, end_claim-same, end_claim-other, seen-IsOpen, track-IsOpen,
}
use agents_python_cloudflare.Driver.Events.{Event, step, run, touches, touched, further, lasts}

module _ (job_id : String) where
  -- What an event makes of an open claim: the version stays, or is a later one.
  record Stepped (e : Event) (n' w : ℕ) (d : Driver) : Type 0 where
    version : ℕ
    is_open : IsOpen job_id n' version (step e d)
    later : touches job_id e ≡ true → w < version
    kept : touches job_id e ≡ false → version ≡ w

  by_job :
      {e : Event} {n' w : ℕ} {d : Driver} (other : String)
      → ((other == job_id) ≡ true → Stepped e n' w d)
      → ((other == job_id) ≡ false → Stepped e n' w d)
      → Stepped e n' w d
  by_job other p q = elim (Bool-cases (other == job_id)) [ inl same ↦ p same | inr apart ↦ q apart ]

  settle :
      {m n' w v : ℕ} (e : Event) (d : Driver)
      → some m ≡ some n'
      → (touches job_id e ≡ true → w < v)
      → (touches job_id e ≡ false → v ≡ w)
      → IsOpen job_id m v (step e d)
      → Stepped e n' w d
  settle {m = m} {n' = n'} {v = v} e d same later kept o = record {
    version = v;
    is_open = let k : m ≡ n' = cc in subst (λ i. IsOpen job_id i v (step e d)) k o;
    later = later;
    kept = kept;
  }

  quiet :
      {m n' w : ℕ} (e : Event) (d : Driver)
      → some m ≡ some n'
      → touches job_id e ≡ false
      → IsOpen job_id m w (step e d)
      → Stepped e n' w d
  quiet e d same untouched = settle e d same (λ h. absurd (cc)) (λ h. refl)

  renewed :
      {m n' w v : ℕ} (e : Event) (d : Driver)
      → some m ≡ some n'
      → touches job_id e ≡ true
      → w < v
      → IsOpen job_id m v (step e d)
      → Stepped e n' w d
  renewed e d same is_touched later = settle e d same (λ h. later) (λ h. absurd (cc))

  end-IsOpen :
      (n n' w : ℕ) (d : Driver) (other : String) (preserve_version : Bool)
      → (other == job_id) ≡ true
      → further job_id (Event.end_claim other preserve_version) n ≡ some n'
      → IsOpen job_id n w d
      → Stepped (Event.end_claim other preserve_version) n' w d
  unfolding step
  end-IsOpen zero n' w d other preserve_version same h o =
      absurd (let e : none ≡ some n' = rw same at h in cc)
  end-IsOpen (suc n) n' w d other preserve_version same h o =
      quiet (Event.end_claim other preserve_version) d (rw same at h) refl
        (end_claim-same job_id d other preserve_version same o)

  step-IsOpen :
      (e : Event) (n n' w : ℕ) (d : Driver)
      → further job_id e n ≡ some n'
      → IsOpen job_id n w d
      → Stepped e n' w d
  unfolding step State.start_claim
  step-IsOpen (Event.note_mutation other) n n' w d h o =
      by_job other
        (λ same.
          renewed (Event.note_mutation other) d h same (let b = o.bound in omega arith)
            (note_mutation-same job_id d other same o))
        (λ apart.
          quiet (Event.note_mutation other) d h apart (note_mutation-other job_id d other apart o))
  step-IsOpen (Event.begin_claim other invocation_time) n n' w d h o =
      by_job other
        (λ same.
          renewed (Event.begin_claim other invocation_time) d (rw same at h) same started_bound
            (begin_claim-same job_id (State.start_claim invocation_time d).1 other same started))
        (λ apart.
          quiet (Event.begin_claim other invocation_time) d (rw apart at h) apart
            (begin_claim-other job_id (State.start_claim invocation_time d).1 other apart started))
    where
      started : IsOpen job_id n w (State.start_claim invocation_time d).1
      started = record { open_claims = o.open_claims; version = o.version; bound = o.bound }

      started_bound : w < suc (State.start_claim invocation_time d).1.mutation_sequence
      started_bound = let b = o.bound in omega arith
  step-IsOpen (Event.end_claim other preserve_version) n n' w d h o =
      by_job other (λ same. end-IsOpen n n' w d other preserve_version same h o)
        (λ apart.
          quiet (Event.end_claim other preserve_version) d (rw apart at h) refl
            (end_claim-other job_id d other preserve_version apart o))
  step-IsOpen (Event.prune_version other) n n' w d h o =
      quiet (Event.prune_version other) d h refl (prune_version-IsOpen job_id d other o)
  step-IsOpen (Event.track executing awaitable accepted) n n' w d h o =
      quiet (Event.track executing awaitable accepted) d h refl
        (track-IsOpen job_id d executing awaitable accepted o)
  step-IsOpen (Event.untrack awaitable) n n' w d h o =
      quiet (Event.untrack awaitable) d h refl
        (record { open_claims = o.open_claims; version = o.version; bound = o.bound })
  step-IsOpen Event.prune_seen_if_quiescent n n' w d h o =
      quiet Event.prune_seen_if_quiescent d h refl (seen-IsOpen job_id d o)
  step-IsOpen Event.begin_alarm n n' w d h o =
      quiet Event.begin_alarm d h refl
        (record { open_claims = o.open_claims; version = o.version; bound = o.bound })
  step-IsOpen Event.end_alarm n n' w d h o =
      quiet Event.end_alarm d h refl
        (record { open_claims = o.open_claims; version = o.version; bound = o.bound })

  lasts_next :
      (e : Event) (es : List Event) (n : ℕ)
      → lasts job_id n (e ∷ es) ≡ true
      → (n' : ℕ) × (further job_id e n ≡ some n') × (lasts job_id n' es ≡ true)
  unfolding lasts
  lasts_next e es n h = go (further job_id e n) refl
    where
      go :
          (f : Option ℕ)
          → further job_id e n ≡ f
          → (n' : ℕ) × (further job_id e n ≡ some n') × (lasts job_id n' es ≡ true)
      go none same = absurd (let x : false ≡ true = rw (same, lasts) at h in cc)
      go (some n') same = (n', same, rw (same, lasts) at h)

  module _ (v : ℕ) where
    -- A version that is not the job's any more does not come back while the claim is open.
    superseded :
        (es : List Event) (n w : ℕ) (d : Driver)
        → lasts job_id n es ≡ true
        → IsOpen job_id n w d
        → v < w
        → version_matches job_id v (run es d) ≡ false
    unfolding lasts run version_matches
    superseded [] n w d open_still o later = let e = o.version in ground arith
    superseded (e ∷ es) n w d open_still o later =
        let (n', next, still) = lasts_next e es n open_still in
        let s = step-IsOpen e n n' w d next o in
        elim (Bool-cases (touches job_id e)) [
          | inl is_touched ↦
              superseded es n' s.version (step e d) still s.is_open
                (let l = s.later is_touched in omega arith)
          | inr untouched ↦
              superseded es n' s.version (step e d) still s.is_open
                (let l = s.kept untouched in omega arith)
        ]

    pub matches :
        (es : List Event) (n : ℕ) (d : Driver)
        → lasts job_id n es ≡ true
        → IsOpen job_id n v d
        → version_matches job_id v (run es d) ≡ not (touched job_id es)
    unfolding lasts run touched version_matches
    matches [] n d open_still o = let e = o.version in ground arith
    matches (e ∷ es) n d open_still o =
        let (n', next, still) = lasts_next e es n open_still in
        let s = step-IsOpen e n n' v d next o in
        elim (Bool-cases (touches job_id e)) [
          | inl is_touched ↦
              rw is_touched
                (superseded es n' s.version (step e d) still s.is_open (s.later is_touched))
          | inr untouched ↦ rw untouched (
              matches es n' (step e d) still
                (subst (λ w. IsOpen job_id n' w (step e d)) (s.kept untouched) s.is_open))
        ]
