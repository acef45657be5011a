-- ===== src/Driver/State.antt =====
-- The state that `_LifecycleJobDriver` keeps in the process, and the functions on it that do not touch
-- the queue. An awaitable is the number of its object; a key that a dict lacks has 0, which is what
-- `get(key, 0)` gives.
use Prim.Native.Nat.{max}
use agents_python_cloudflare.Prelude.{
  ℕ, suc, ◌+◌, ◌-◌, String, Bool, true, false, ◌&&◌, ◌||◌, not, Option, none, some, List, [], ◌∷◌,
  ◌==◌, eqb, if◌then◌else◌,
}
use agents_python_cloudflare.Jobs.Rows.{JobRow}

-- `_TrackedWork`, without its scope.
pub record TrackedWork : Type 0 where
  pub row : JobRow
  pub version : ℕ

pub record Driver : Type 0 where
  pub versions : String → ℕ
  pub mutation_sequence : ℕ
  pub active_claims : String → ℕ
  pub tracked : List (ℕ × TrackedWork)
  pub seen : List ℕ
  pub active_alarms : ℕ
  pub last_claim_started_at : ℕ

abbrev pub new_driver : Driver
new_driver = record {
  versions = λ job_id. 0;
  mutation_sequence = 0;
  active_claims = λ job_id. 0;
  tracked = [];
  seen = [];
  active_alarms = 0;
  last_claim_started_at = 0;
}

-- dict[key] = value, and dict.pop(key, None) where the value is 0
abbrev pub set : String → ℕ → (String → ℕ) → String → ℕ
set key value dict other = if other == key then value else dict other

abbrev pub is_tracked_job : String → List (ℕ × TrackedWork) → Bool
is_tracked_job job_id [] = false
is_tracked_job job_id ((key, work) ∷ rest) = work.row.id == job_id || is_tracked_job job_id rest

abbrev pub has_tracked_job : String → Driver → Bool
has_tracked_job job_id d = is_tracked_job job_id d.tracked

-- The version of the job is a new number.
abbrev pub bump : String → Driver → Driver
bump job_id d = record d {
  mutation_sequence = suc d.mutation_sequence;
  versions = set job_id (suc d.mutation_sequence) d.versions;
}

unfoldable pub note_mutation : String → Driver → Driver
note_mutation job_id d =
    if eqb (d.active_claims job_id) 0 && not (has_tracked_job job_id d) then d else bump job_id d

-- `_begin_claim` returns the version that it has set.
unfoldable pub begin_claim : String → Driver → ℕ × Driver
begin_claim job_id d =
    let d' = bump job_id d in
    (
      suc d.mutation_sequence,
      record d' { active_claims = set job_id (d.active_claims job_id + 1) d.active_claims },
    )

-- A claim starts later than every claim before it.
unfoldable pub start_claim : ℕ → Driver → ℕ × Driver
start_claim invocation_time d =
    let started_at = max invocation_time (d.last_claim_started_at + 1) in
    (started_at, record d { last_claim_started_at = started_at })

unfoldable pub prune_version : String → Driver → Driver
prune_version job_id d =
    if not (eqb (d.active_claims job_id) 0) || has_tracked_job job_id d
    then d
    else record d { versions = set job_id 0 d.versions }

unfoldable pub end_claim : String → Bool → Driver → Driver
unfolding prune_version
end_claim job_id preserve_version d =
    let remaining = d.active_claims job_id - 1 in
    let d' : Driver = record d { active_claims = set job_id remaining d.active_claims } in
    if not (eqb remaining 0) || preserve_version then d' else prune_version job_id d'

unfoldable pub version_matches : String → ℕ → Driver → Bool
version_matches job_id expected d = eqb (d.versions job_id) expected

abbrev pub is_seen : ℕ → List ℕ → Bool
is_seen awaitable [] = false
is_seen awaitable (other ∷ rest) = eqb other awaitable || is_seen awaitable rest

abbrev pub is_tracked : ℕ → List (ℕ × TrackedWork) → Bool
is_tracked awaitable [] = false
is_tracked awaitable ((other, work) ∷ rest) = eqb other awaitable || is_tracked awaitable rest

-- `track` within an alarm that executes the row under the version, where that is not `none`.
-- `accepted` is whether the background accepts the observer; one that raises leaves no trace either.
unfoldable pub track : Option (JobRow × ℕ) → ℕ → Bool → Driver → Bool × Driver
track none awaitable accepted d = (false, d)
track (some (row, version)) awaitable accepted d =
    if is_seen awaitable d.seen
    then (true, d)
    else if is_tracked awaitable d.tracked
    then (true, record d { seen = awaitable ∷ d.seen })
    else if accepted
    then (
      true,
      record d {
        tracked = (awaitable, record { row = row; version = version }) ∷ d.tracked;
        seen = awaitable ∷ d.seen;
      },
    )
    else (false, d)

-- tracked.pop(key, None)
abbrev pub untracked : ℕ → List (ℕ × TrackedWork) → List (ℕ × TrackedWork)
untracked awaitable [] = []
untracked awaitable ((other, work) ∷ rest) =
    let left = untracked awaitable rest in
    if eqb other awaitable then left else (other, work) ∷ left

abbrev pub untrack : ℕ → Driver → Driver
untrack awaitable d = record d { tracked = untracked awaitable d.tracked }

abbrev pub is_empty : List (ℕ × TrackedWork) → Bool
is_empty [] = true
is_empty (work ∷ rest) = false

unfoldable pub prune_seen_if_quiescent : Driver → Driver
prune_seen_if_quiescent d =
    if eqb d.active_alarms 0 && is_empty d.tracked then record d { seen = [] } else d
