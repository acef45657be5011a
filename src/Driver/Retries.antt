-- ===== src/Driver/Retries.antt =====
-- The attempts of a job's handler: how many are made, and which one decides.
use agents_python_cloudflare.Prelude.{
  ℕ, zero, suc, ◌+◌, ◌≤◌, ◌<◌, ◌≡◌, refl, Bool, true, false, arith, Bool-cases, inl, inr, ◌⊎◌, eqb,
}
use agents_python_cloudflare.Driver.Attempts.{
  Answer, cancelled, is_final, attempts_from, attempt_job,
}

-- The loop was left at an attempt: every earlier one failed with an error that is tried again, and the
-- waits after those were not cancelled; this one decides, as the last, with its answer, or by the wait
-- after it.
pub record Leaves (answer : ℕ → Answer) (is_cancelled : ℕ → Bool)
    (first_attempt last_attempt attempt : ℕ) (result : Answer) : Type 0 where
  from : first_attempt ≤ attempt
  to : attempt ≤ last_attempt
  earlier :
      (k : ℕ)
      → first_attempt ≤ k
      → k < attempt
      → (is_final (answer k) ≡ false) × (is_cancelled k ≡ false)
  decides :
      ((result ≡ answer attempt) × ((is_final (answer attempt) ≡ true) ⊎ (attempt ≡ last_attempt)))
      ⊎ ((result ≡ cancelled)
          × (is_final (answer attempt) ≡ false)
          × (is_cancelled attempt ≡ true)
          × (attempt < last_attempt))

module _ (answer : ℕ → Answer) (is_cancelled : ℕ → Bool) where
  -- The loop is left at its first attempt.
  at_once :
      (last_attempt attempt : ℕ) (result : Answer)
      → attempt ≤ last_attempt
      → ((result ≡ answer attempt)
          × ((is_final (answer attempt) ≡ true) ⊎ (attempt ≡ last_attempt)))
        ⊎ ((result ≡ cancelled)
            × (is_final (answer attempt) ≡ false)
            × (is_cancelled attempt ≡ true)
            × (attempt < last_attempt))
      → Leaves answer is_cancelled attempt last_attempt attempt result
  at_once last_attempt attempt result bound decides = record {
    from = omega arith;
    to = bound;
    earlier = λ k low high. absurd (omega arith);
    decides = decides;
  }

  -- An attempt that is tried again comes before those at which the rest of the loop is left.
  after_retry :
      (first_attempt last_attempt attempt : ℕ) (result : Answer)
      → is_final (answer first_attempt) ≡ false
      → is_cancelled first_attempt ≡ false
      → Leaves answer is_cancelled (first_attempt + 1) last_attempt attempt result
      → Leaves answer is_cancelled first_attempt last_attempt attempt result
  after_retry first_attempt last_attempt attempt result again going rest = record {
    from = let f = rest.from in omega arith;
    to = rest.to;
    earlier = λ k low high. elim (Bool-cases (eqb k first_attempt)) [
      | inl same ↦ let e : k ≡ first_attempt = ground arith in rw e (again, going)
      | inr later ↦ rest.earlier k (ground arith) high
    ];
    decides = rest.decides;
  }

  attempts_from_lem :
      (more attempt last_attempt : ℕ)
      → last_attempt ≡ attempt + more
      → Leaves answer is_cancelled attempt last_attempt
          (attempts_from answer is_cancelled more attempt).1
          (attempts_from answer is_cancelled more attempt).0
  unfolding attempts_from
  attempts_from_lem zero attempt last_attempt e =
      at_once last_attempt attempt (answer attempt) (omega arith) (inl (refl, inr (omega arith)))
  attempts_from_lem (suc more) attempt last_attempt e =
      elim (Bool-cases (is_final (answer attempt))) [
        | inl ends ↦
            rw ends
              (at_once last_attempt attempt (answer attempt) (omega arith) (inl (refl, inl ends)))
        | inr again ↦ elim (Bool-cases (is_cancelled attempt)) [
          | inl stopped ↦
              rw (again, stopped)
                (at_once last_attempt attempt cancelled (omega arith)
                  (inr (refl, again, stopped, omega arith)))
          | inr going ↦
              rw (again, going)
                (after_retry attempt last_attempt _ _ again going
                  (attempts_from_lem more (attempt + 1) last_attempt (omega arith)))
        ]
      ]

  -- The attempts of a handler, of which one at least is allowed. The loop ends, at one attempt among the
  -- allowed ones: all attempts before it failed with errors that are no code updates, and no wait after
  -- them was cancelled; and its answer is the loop's, where it is no such error or the attempt is the
  -- last one allowed, or else the wait after it was cancelled and so is the loop.
  pub attempt_job_correct :
      (max_attempts : ℕ)
      → 1 ≤ max_attempts
      → Leaves answer is_cancelled 1 max_attempts
          (attempt_job answer is_cancelled max_attempts).1
          (attempt_job answer is_cancelled max_attempts).0
  unfolding attempt_job
  attempt_job_correct zero some_attempt = absurd (omega arith)
  attempt_job_correct (suc more) some_attempt = attempts_from_lem more 1 (suc more) (omega arith)
