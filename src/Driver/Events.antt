-- ===== src/Driver/Events.antt =====
-- Sequences of the driver's calls, in any order: the alarms of one object overlap, and what one does
-- between two awaits comes between those of the others.
use agents_python_cloudflare.Prelude.{
  ℕ, zero, suc, ◌+◌, ◌-◌, String, Bool, true, false, ◌||◌, Option, none, some, List, [], ◌∷◌, ◌==◌,
  if◌then◌else◌,
}
use agents_python_cloudflare.Jobs.Rows.{JobRow}
use agents_python_cloudflare.Driver.State
use agents_python_cloudflare.Driver.State.{Driver}

pub data Event : Type 0 where
  note_mutation : String → Event
  begin_claim : String → ℕ → Event
  end_claim : String → Bool → Event
  prune_version : String → Event
  track : Option (JobRow × ℕ) → ℕ → Bool → Event
  untrack : ℕ → Event
  prune_seen_if_quiescent : Event
  begin_alarm : Event
  end_alarm : Event

unfoldable pub step : Event → Driver → Driver
step (note_mutation job_id) d = State.note_mutation job_id d
step (begin_claim job_id invocation_time) d =
    (State.begin_claim job_id (State.start_claim invocation_time d).1).1
step (end_claim job_id preserve_version) d = State.end_claim job_id preserve_version d
step (prune_version job_id) d = State.prune_version job_id d
step (track executing awaitable accepted) d = (State.track executing awaitable accepted d).1
step (untrack awaitable) d = State.untrack awaitable d
step prune_seen_if_quiescent d = State.prune_seen_if_quiescent d
step begin_alarm d = record d { active_alarms = d.active_alarms + 1 }
step end_alarm d = record d { active_alarms = d.active_alarms - 1 }

unfoldable pub run : List Event → Driver → Driver
run [] d = d
run (e ∷ es) d = run es (step e d)

-- Whether an event gives the job a new version: it is pushed, cancelled or rescheduled, or claimed.
abbrev pub touches : String → Event → Bool
touches job_id (note_mutation other) = other == job_id
touches job_id (begin_claim other invocation_time) = other == job_id
touches job_id _ = false

unfoldable pub touched : String → List Event → Bool
touched job_id [] = false
touched job_id (e ∷ es) = touches job_id e || touched job_id es

-- How many further claims of the job an event leaves, `none` where it ends the claim in question.
abbrev pub ended : ℕ → Option ℕ
ended zero = none
ended (suc n) = some n

abbrev pub further : String → Event → ℕ → Option ℕ
further job_id (begin_claim other invocation_time) n = some (if other == job_id then suc n else n)
further job_id (end_claim other preserve_version) n = if other == job_id then ended n else some n
further job_id _ n = some n

-- Whether a claim of the job lasts through the events, in which `n` further claims of it may end.
unfoldable pub lasts : String → ℕ → List Event → Bool
lasts job_id n [] = true
lasts job_id n (e ∷ es) = elim (further job_id e n) [ none ↦ false | some n' ↦ lasts job_id n' es ]
