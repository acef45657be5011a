-- ===== src/Driver/Strikes.antt =====
-- What a strike does to the job that exceeded the memory limit, and to the recovery loops.
use agents_python_cloudflare.Prelude.{
  ℕ, ◌+◌, ◌≡◌, String, Bool, true, false, ◌&&◌, ◌||◌, Option, none, some, ◌==◌, ltb, eqb,
  if◌then◌else◌, coalesce,
}
use agents_python_cloudflare.Sql.{exists, first}
use agents_python_cloudflare.Jobs.Rows.{Job, JobRow, returned, Wire}
use agents_python_cloudflare.Jobs.Codec.{job_from_row}
use agents_python_cloudflare.Jobs.Queue.{Table}
use agents_python_cloudflare.Driver.State.{Driver, version_matches}

-- A job of a recovery loop that is due before a time.
abbrev loops_before : ℕ → JobRow → Bool
loops_before time r = eqb r.recovery_loop 1 && ltb r.time time

module _ {J : Type 0} (w : Wire J) (limit now : ℕ) (row : JobRow) (v : ℕ) (prior : Option ℕ)
    (t : Table) (d : Driver) (job : Job J) (current : version_matches row.id v d ≡ true)
    (readable : job_from_row w true row ≡ returned job) where
  abbrev strike : ℕ
  strike = coalesce prior 0 + 1

-- What a strike leaves: under the limit, the job at the later time and idle, no recovery loop due before
-- that time, and one strike more; at the limit, neither the job nor any recovery loop nor a strike.
pub record IsStruck (job_id : String) (postponed : JobRow) (is_sealed : Bool) (strikes : ℕ)
    (stored : Option ℕ) (t : Table) : Type 0 where
  job : first (λ (r : JobRow). r.id == job_id) t ≡ (if is_sealed then none else some postponed)
  loops :
      exists (λ (r : JobRow). eqb r.recovery_loop 1 && (is_sealed || ltb r.time postponed.time)) t
      ≡ false
  count : stored ≡ (if is_sealed then none else some strikes)
