-- ===== src/Jobs/Ownership.antt =====
-- A capability's statements touch its own jobs only.
use agents_python_cloudflare.Prelude.{
  ℕ, ◌≡◌, refl, ◌≢◌, String, Bool, true, false, List, arith, ◌==◌, eq_iff, Bool-cases, Option-cases,
  inl, inr,
}
use agents_python_cloudflare.Sql.{select, exists}
use agents_python_cloudflare.Sql.Rows.{select-update_other, select-delete_other}
use agents_python_cloudflare.Jobs.Rows.{
  Number, PushOptions, JobRow, Raising, returned, raised, Wire,
}
use agents_python_cloudflare.Jobs.Validation.{validate_time}
use agents_python_cloudflare.Jobs.Queue.{Table, is_job, upsert, new_row, push, cancel, reschedule}

-- The jobs of one capability.
unfoldable pub jobs_of : String → Table → List JobRow
jobs_of capability t = select (λ (r : JobRow). r.capability == capability) t

module _ (c d : String) (other : c ≢ d) where
  not_both : (r : JobRow) (a k : String) → a ≡ c → is_job a k r ≡ true → (r.capability == d) ≡ false
  not_both r a k e h = ground (arith, eq_iff r.capability a, eq_iff r.capability d, eq_iff c d)

  upsert-jobs_of :
      (new : JobRow) (t : Table) → new.capability ≡ c → jobs_of d (upsert new t) ≡ jobs_of d t
  unfolding jobs_of upsert
  upsert-jobs_of new t e = elim (Bool-cases (exists (λ r. r.id == new.id) t)) [
    | inl taken ↦ rw taken (
        select-update_other _ _ _ t
          (λ r h. (not_both r new.capability new.id e h, not_both r new.capability new.id e h)))
    | inr free ↦ rw free (unfold select in ground (arith, eq_iff new.capability d, eq_iff c d))
  ]

  module _ (k : String) (t : Table) where
    cancel-jobs_of : jobs_of d (cancel c k t).1 ≡ jobs_of d t
    unfolding jobs_of cancel
    cancel-jobs_of = elim (Bool-cases (exists (is_job c k) t)) [
      | inl owned ↦ rw owned (select-delete_other _ _ t (λ r h. not_both r c k refl h))
      | inr missing ↦ rw missing refl
    ]

    reschedule-jobs_of : (n : Number) → jobs_of d (reschedule c k n t).1 ≡ jobs_of d t
    unfolding jobs_of reschedule
    reschedule-jobs_of n = elim (Option-cases (validate_time n)) [
      | inl invalid ↦ rw (invalid, reschedule) refl
      | inr (due, e) ↦ elim (Bool-cases (exists (is_job c k) t)) [
        | inl owned ↦
            rw (e, reschedule)
              (rw owned (
                select-update_other _ _ _ t
                  (λ r h. (not_both r c k refl h, not_both r c k refl h))))
        | inr missing ↦ rw (e, reschedule) (rw missing refl)
      ]
    ]

module _ {J : Type 0} (w : Wire J) where
  -- The row that a push writes belongs to the capability that pushes.
  new_row-capability :
      (validate : Bool) (generated : String) (now : ℕ) (c : String) (o : PushOptions J)
      {new : JobRow}
      → new_row w validate generated now c o ≡ returned new
      → new.capability ≡ c
  unfolding new_row
  new_row-capability validate generated now c o {new} h = ground arith

  -- What a push, a cancellation and a rescheduling of one capability do, whether they succeed or are
  -- refused, leaves the jobs of every other capability exactly as they were.
  pub jobs_of-owner :
      (c d : String) (t : Table)
      → c ≢ d
      → ((validate : Bool) (generated : String) (now : ℕ) (o : PushOptions J)
          → jobs_of d (push w validate generated now c o t).1 ≡ jobs_of d t)
        × ((k : String) → jobs_of d (cancel c k t).1 ≡ jobs_of d t)
        × ((k : String) (n : Number) → jobs_of d (reschedule c k n t).1 ≡ jobs_of d t)
  jobs_of-owner c d t other = (
    λ validate generated now o.
        pushed_rows validate generated now o (new_row w validate generated now c o) refl,
    λ k. cancel-jobs_of c d other k t,
    λ k n. reschedule-jobs_of c d other k t n,
  )
    where
      pushed_rows :
          (validate : Bool) (generated : String) (now : ℕ) (o : PushOptions J) (r : Raising JobRow)
          → new_row w validate generated now c o ≡ r
          → jobs_of d (push w validate generated now c o t).1 ≡ jobs_of d t
      pushed_rows validate generated now o (raised x) e = unfold push in rw (e, push) refl
      pushed_rows validate generated now o (returned new) e =
          unfold push in
          rw (e, push)
            (upsert-jobs_of c d other new t (new_row-capability validate generated now c o e))
