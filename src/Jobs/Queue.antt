-- ===== src/Jobs/Queue.antt =====
-- The statements of `_LifecycleJobQueue` in agents/lifecycle/jobs.py that capabilities ask for: push,
-- cancel, reschedule, and the queries of their own jobs.
use agents_python_cloudflare.Prelude.{
  ℕ, String, Bool, true, false, ◌&&◌, not, Option, none, some, List, [], ◌∷◌, ◌==◌, leb, eqb,
  is_some, coalesce, if◌then◌else◌,
}
use agents_python_cloudflare.Sql.{update, delete, select, exists, first, order_by}
use agents_python_cloudflare.Jobs.Rows.{
  Number, Flag, flag, Timeout, seconds, PushOptions, Job, JobRow, invalid_time, empty_fn, empty_id,
  invalid_flag, foreign_owner, not_persisted, Raising, returned, raised, Wire,
}
use agents_python_cloudflare.Jobs.Validation.{validate_time, validate_job_flags, is_blank}
use agents_python_cloudflare.Jobs.Codec.{◌>>=◌, ◌>>◌, or_raise, guard, encode_retry, job_from_row}

-- The table cf_agents_jobs.
abbrev pub Table : Type 0
Table = List JobRow

-- WHERE id = ? AND capability = ?
abbrev pub is_job : String → String → JobRow → Bool
is_job capability job_id r = r.id == job_id && r.capability == capability

-- ORDER BY time ASC
unfoldable pub by_time : JobRow → JobRow → Bool
by_time a b = leb a.time b.time

-- int(flag), and the value of an accepted timeout
abbrev pub flag_int : Flag → ℕ
flag_int (flag true) = 1
flag_int (flag false) = 0
flag_int Flag.other = 0

abbrev pub timeout_value : Option Timeout → Option ℕ
timeout_value (some (seconds n)) = some n
timeout_value _ = none

-- The SET clause of the upsert.
abbrev pub overwritten : JobRow → JobRow → JobRow
overwritten new r = record r {
  fn = new.fn;
  time = new.time;
  payload = new.payload;
  retry_options = new.retry_options;
  singleflight = new.singleflight;
  hung_timeout_seconds = new.hung_timeout_seconds;
  exclusive = new.exclusive;
  recovery_loop = new.recovery_loop;
  running = 0;
  execution_started_at = none;
}

-- INSERT … ON CONFLICT(id) DO UPDATE SET … WHERE capability = excluded.capability
unfoldable pub upsert : JobRow → Table → Table
upsert new t =
    if exists (λ r. r.id == new.id) t
    then update (is_job new.capability new.id) (overwritten new) t
    else new ∷ t

unfoldable pub is_owned : String → String → Table → Bool
is_owned capability job_id t = exists (is_job capability job_id) t

unfoldable pub cancel : String → String → Table → Bool × Table
unfolding is_owned
cancel capability job_id t =
    if is_owned capability job_id t then (true, delete (is_job capability job_id) t) else (false, t)

abbrev pub retimed : ℕ → JobRow → JobRow
retimed due r = record r { time = due; running = 0; execution_started_at = none }

unfoldable pub reschedule : String → String → Number → Table → Raising Bool × Table
unfolding is_owned
reschedule capability job_id time t = elim (validate_time time) [
  | none ↦ (raised invalid_time, t)
  | some due ↦
      if is_owned capability job_id t
      then (returned true, update (is_job capability job_id) (retimed due) t)
      else (returned false, t)
]

module _ {J : Type 0} (w : Wire J) where
  -- A query for one job of a capability: no row, a row that cannot be read, or the job.
  unfoldable pub get : Bool → String → String → Table → Raising (Option (Job J))
  get validate capability job_id t = elim (first (is_job capability job_id) t) [
    | none ↦ returned none
    | some r ↦ job_from_row w validate r >>= (λ j. returned (some j))
  ]

  -- An absent payload is NULL.
  abbrev pub payload_text : Option J → Option String
  payload_text none = none
  payload_text (some j) = some (w.dumps j)

  -- The row that `push` writes, once every check has passed. `generated` is `gen_id()`, and `now` is
  -- `unixepoch()`.
  unfoldable pub new_row : Bool → String → ℕ → String → PushOptions J → Raising JobRow
  new_row validate generated now capability o = do
    due ← or_raise (validate_time o.time) invalid_time
    guard (not (is_blank o.fn)) empty_fn
    let job_id = coalesce o.id generated
    guard (not (job_id == "")) empty_id
    retry ← encode_retry w validate o.retry
    guard (validate_job_flags o) invalid_flag
    returned (record {
      id = job_id;
      capability = capability;
      fn = o.fn;
      time = due;
      payload = payload_text o.payload;
      retry_options = retry;
      singleflight = flag_int o.singleflight;
      hung_timeout_seconds = timeout_value o.hung_timeout_seconds;
      exclusive = flag_int o.exclusive;
      recovery_loop = flag_int o.recovery_loop;
      running = 0;
      execution_started_at = none;
      created_at = now;
    })

  -- What `push` says once its row has been offered to the table.
  unfoldable pub pushed : String → Table → Raising (Option (Job J)) → Raising (Job J)
  pushed job_id t (returned (some job)) = returned job
  pushed job_id t (raised e) = raised e
  pushed job_id t (returned none) = elim (first (λ r. r.id == job_id) t) [
    | some r ↦ raised (foreign_owner r.capability)
    | none ↦ raised not_persisted
  ]

  unfoldable pub push : Bool → String → ℕ → String → PushOptions J → Table → Raising (Job J) × Table
  push validate generated now capability o t = elim (new_row validate generated now capability o) [
    | raised e ↦ (raised e, t)
    | returned new ↦
        let t' : Table = upsert new t in (pushed new.id t' (get validate capability new.id t'), t')
  ]

  -- The rows in order, each read; the first that cannot be read is the error.
  unfoldable pub read_all : Bool → List JobRow → Raising (List (Job J))
  read_all validate [] = returned []
  read_all validate (r ∷ rs) = do
    j ← job_from_row w validate r
    js ← read_all validate rs
    returned (j ∷ js)

  -- The rows in order, those that cannot be read left out.
  unfoldable pub read_valid : Bool → List JobRow → List (Job J)
  read_valid validate [] = []
  read_valid validate (r ∷ rs) =
      let rest = read_valid validate rs in
      elim (job_from_row w validate r) [ returned j ↦ j ∷ rest | raised e ↦ rest ]

  unfoldable pub list : Bool → Bool → String → Table → Raising (List (Job J))
  unfolding read_all read_valid
  list skip_invalid validate capability t =
      let rows = order_by by_time (select (λ (r : JobRow). r.capability == capability) t) in
      if skip_invalid then returned (read_valid validate rows) else read_all validate rows

  unfoldable pub recovery_loop_jobs : Table → List (Job J)
  unfolding read_valid
  recovery_loop_jobs t =
      read_valid true (order_by by_time (select (λ (r : JobRow). eqb r.recovery_loop 1) t))

  -- The time of the first exclusive row that can be read.
  unfoldable pub first_valid_time : List JobRow → Option ℕ
  first_valid_time [] = none
  first_valid_time (r ∷ rs) =
      let rest = first_valid_time rs in
      elim (job_from_row w true r) [ returned j ↦ some r.time | raised e ↦ rest ]

  unfoldable pub valid_exclusive_time : Table → Option ℕ
  unfolding first_valid_time
  valid_exclusive_time t =
      first_valid_time (order_by by_time (select (λ (r : JobRow). eqb r.exclusive 1) t))

  unfoldable pub has_exclusive : Table → Bool
  unfolding valid_exclusive_time
  has_exclusive t = is_some (valid_exclusive_time t)
