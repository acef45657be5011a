-- ===== src/Driver/Starts.antt =====
-- The claims of a driver start one after the other.
use agents_python_cloudflare.Prelude.{
  ℕ, ◌-◌, ◌≤◌, String, Bool, true, false, ◌&&◌, ◌||◌, not, Option, none, some, List, [], ◌∷◌, eqb,
  arith, Bool-cases, inl, inr, if◌then◌else◌,
}
use agents_python_cloudflare.Jobs.Rows.{JobRow}
use agents_python_cloudflare.Driver.State
use agents_python_cloudflare.Driver.State.{
  Driver, start_claim, begin_claim, version_matches, has_tracked_job, is_empty, is_seen, is_tracked,
}
use agents_python_cloudflare.Driver.Events.{Event, step, run}

-- No claim of the driver has started after the time.
pub record HasStarted (n : ℕ) (d : Driver) : Type 0 where
  pub started : n ≤ d.last_claim_started_at

by_if :
    {n : ℕ} (b : Bool) (x y : Driver)
    → HasStarted n x
    → HasStarted n y
    → HasStarted n (if b then x else y)
by_if true x y p q = p
by_if false x y p q = q

module _ {n : ℕ} where
  prune_version-HasStarted :
      (other : String) (d : Driver) → HasStarted n d → HasStarted n (State.prune_version other d)
  unfolding State.prune_version
  prune_version-HasStarted other d h =
      by_if (not (eqb (d.active_claims other) 0) || has_tracked_job other d) _ _ h
        (record { started = h.started })

  seen-HasStarted : (d : Driver) → HasStarted n d → HasStarted n (State.prune_seen_if_quiescent d)
  unfolding State.prune_seen_if_quiescent
  seen-HasStarted d h =
      by_if (eqb d.active_alarms 0 && is_empty d.tracked) _ _ (record { started = h.started }) h

  track-HasStarted :
      (executing : Option (JobRow × ℕ)) (awaitable : ℕ) (accepted : Bool) (d : Driver)
      → HasStarted n d
      → HasStarted n (State.track executing awaitable accepted d).1
  unfolding State.track
  track-HasStarted none awaitable accepted d h = h
  track-HasStarted (some (row, version)) awaitable accepted d h =
      elim (Bool-cases (is_seen awaitable d.seen)) [
        | inl a ↦ rw a h
        | inr a ↦ elim (Bool-cases (is_tracked awaitable d.tracked)) [
          | inl b ↦ rw (a, b) (record { started = h.started })
          | inr b ↦ elim (Bool-cases accepted) [
            | inl c ↦ rw (a, b, c) (record { started = h.started })
            | inr c ↦ rw (a, b, c) h
          ]
        ]
      ]

  step-HasStarted : (e : Event) (d : Driver) → HasStarted n d → HasStarted n (step e d)
  unfolding step State.note_mutation State.begin_claim State.start_claim State.end_claim
  step-HasStarted (Event.note_mutation other) d h =
      by_if (eqb (d.active_claims other) 0 && not (has_tracked_job other d)) _ _ h
        (record { started = h.started })
  step-HasStarted (Event.begin_claim other now) d h =
      let s = h.started in record { started = omega arith }
  step-HasStarted (Event.end_claim other preserve_version) d h =
      by_if (not (eqb (d.active_claims other - 1) 0) || preserve_version) _ _
        (record { started = h.started })
        (prune_version-HasStarted other
          (record d { active_claims = State.set other (d.active_claims other - 1) d.active_claims })
          (record { started = h.started }))
  step-HasStarted (Event.prune_version other) d h = prune_version-HasStarted other d h
  step-HasStarted (Event.track executing awaitable accepted) d h =
      track-HasStarted executing awaitable accepted d h
  step-HasStarted (Event.untrack awaitable) d h = record { started = h.started }
  step-HasStarted Event.prune_seen_if_quiescent d h = seen-HasStarted d h
  step-HasStarted Event.begin_alarm d h = record { started = h.started }
  step-HasStarted Event.end_alarm d h = record { started = h.started }

  pub run-HasStarted : (es : List Event) (d : Driver) → HasStarted n d → HasStarted n (run es d)
  unfolding run
  run-HasStarted [] d h = h
  run-HasStarted (e ∷ es) d h = run-HasStarted es (step e d) (step-HasStarted e d h)
