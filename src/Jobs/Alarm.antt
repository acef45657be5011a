-- ===== src/Jobs/Alarm.antt =====
-- `next_alarm_time` of agents/lifecycle/jobs.py: when the driver has to wake next.
use agents_python_cloudflare.Prelude.{
  ℕ, ◌+◌, Bool, true, ◌&&◌, ◌||◌, Option, none, some, List, [], ◌∷◌, leb, ltb, eqb, coalesce, map,
}
use Prim.Native.Nat.{min, max}
use agents_python_cloudflare.Sql.{select}
use agents_python_cloudflare.Jobs.Rows.{JobRow, Wire}
use agents_python_cloudflare.Jobs.Validation.{max_sqlite_integer}
use agents_python_cloudflare.Jobs.Queue.{Table, valid_exclusive_time}
use agents_python_cloudflare.Jobs.Execution.{hung_timeout_ms}

abbrev pub min_or : ℕ → Option ℕ → ℕ
min_or a none = a
min_or a (some b) = min a b

-- SELECT MIN(…): NULL over no rows
unfoldable pub min_of : List ℕ → Option ℕ
min_of [] = none
min_of (a ∷ l) = let rest = min_of l in some (min_or a rest)

-- When a running single-flight row counts as hung. The sum is SQLite's up to its largest integer.
abbrev pub recheck_at : JobRow → ℕ
recheck_at r = coalesce r.execution_started_at 0 + hung_timeout_ms r

-- The rows that may start: those whose run is over, hung, or no obstacle.
abbrev pub is_ready : ℕ → JobRow → Bool
is_ready time r =
    (eqb r.singleflight 0 || (eqb r.running 0 || leb (recheck_at r) time))
    && leb r.time max_sqlite_integer

-- The single-flight rows that run and do not count as hung yet.
abbrev pub is_in_flight : ℕ → JobRow → Bool
is_in_flight time r = eqb r.singleflight 1 && (eqb r.running 1 && ltb time (recheck_at r))

abbrev pub earlier : Option ℕ → Option ℕ → Option ℕ
earlier candidate none = candidate
earlier none (some recheck) = some recheck
earlier (some candidate) (some recheck) = some (min candidate recheck)

unfoldable pub ready_time : (JobRow → Bool) → ℕ → Table → Option ℕ
ready_time among time t =
    min_of (map (λ (r : JobRow). r.time) (select (λ r. among r && is_ready time r) t))

unfoldable pub recheck_time : (JobRow → Bool) → ℕ → Table → Option ℕ
recheck_time among time t = min_of (map recheck_at (select (λ r. among r && is_in_flight time r) t))

abbrev pub is_exclusive : JobRow → Bool
is_exclusive r = eqb r.exclusive 1

abbrev pub after : ℕ → Option ℕ → Option ℕ
after time none = none
after time (some ready) = some (max ready (time + 1))

abbrev pub any_row : JobRow → Bool
any_row r = true

-- The branch where a readable exclusive row holds the others back, and the branch where none does.
unfoldable pub exclusive_alarm : ℕ → Table → Option ℕ
exclusive_alarm time t = earlier (ready_time is_exclusive time t) (recheck_time is_exclusive time t)

unfoldable pub ordinary_alarm : ℕ → Table → Option ℕ
ordinary_alarm time t =
    earlier (after time (ready_time any_row time t)) (recheck_time any_row time t)

unfoldable pub next_alarm_time : {J : Type 0} → Wire J → ℕ → Table → Option ℕ
unfolding exclusive_alarm ordinary_alarm
next_alarm_time w time t = elim (valid_exclusive_time w t) [
  | some exclusive_time ↦ exclusive_alarm time t
  | none ↦ ordinary_alarm time t
]
