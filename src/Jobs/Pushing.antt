-- ===== src/Jobs/Pushing.antt =====
-- What a push writes, and what it returns.
use Prim.Native.Nat.{◌/◌}
use native.Mathlib.Nat.{one-le-pow}
use agents_python_cloudflare.Prelude.{
  ℕ, ◌+◌, ◌≡◌, refl, ◌≢◌, ◌∙◌, sym, ap, ◌≤◌, ◌<◌, ◌*◌, ◌^◌, String, Bool, true, false, Option, none,
  some, arith, ◌==◌, eq_iff, eq_refl, Option-cases, inl, inr, eqb, is_some, coalesce,
}
use agents_python_cloudflare.Sql.{update, exists, first}
use agents_python_cloudflare.Sql.Rows.{first-update_hit, update_missing}
use agents_python_cloudflare.Sql.Keys.{
  exists-first-none, first_narrow, first_passes, IsUnique, exists_at_key, first-none, exists_first,
}
use agents_python_cloudflare.Jobs.Rows.{
  Number, int, float, Flag, flag, Retry, PushOptions, Job, JobRow, Raising, foreign_owner, returned,
  raised, Wire, IsFaithful,
}
use agents_python_cloudflare.Jobs.Validation.{
  max_sqlite_integer, float_overflow, validate_time, validate_job_flags, is_flag,
}
use agents_python_cloudflare.Jobs.Codec.{encode_retry, decode_retry, decode_payload, job_from_row}
use agents_python_cloudflare.Jobs.Queue.{
  Table, is_job, upsert, overwritten, payload_text, new_row, get, pushed, push, flag_int,
  timeout_value,
}

-- The whole number below a number, or that number.
abbrev pub IsFloor : Number → ℕ → Type 0
IsFloor (int i) due = due ≡ i
IsFloor (float m k) due = (due * 2 ^ k ≤ m) × (m < (due + 1) * 2 ^ k)
IsFloor _ due = ⊥

pow_pos : (k : ℕ) → 0 < 2 ^ k
pow_pos k = one-le-pow k 2 (omega arith)

floor_bounds : (m p : ℕ) → 0 < p → (m / p * p ≤ m) × (m < (m / p + 1) * p)
floor_bounds m p h = grind arith

floor-le : (m p top : ℕ) → 0 < p → m ≤ top * p → m / p ≤ top
floor-le m p top h le = grind arith

-- An accepted time is the floor of the number that was given, and fits SQLite's integers.
pub validate_time_bounds :
    (n : Number) (due : ℕ) → validate_time n ≡ some due → (due ≤ max_sqlite_integer) × IsFloor n due
unfolding validate_time
validate_time_bounds (int i) due h = ground arith
validate_time_bounds (float m k) due h =
    ground
      (arith, floor_bounds m (2 ^ k) (pow_pos k), floor-le m (2 ^ k) max_sqlite_integer (pow_pos k))
validate_time_bounds _ due h = absurd (cc)

validate_time-int : (n : ℕ) → n ≤ max_sqlite_integer → validate_time (int n) ≡ some n
unfolding validate_time float_overflow
validate_time-int n h = ground arith

decode-encode_retry :
    {J : Type 0} (w : Wire J) (validate : Bool) (r : Option Retry) (text : Option String)
    → ((v : Retry) → r ≡ some v → w.loads_retry (w.dumps_retry v) ≡ some v)
    → encode_retry w validate r ≡ returned text
    → decode_retry w validate text ≡ returned r
unfolding encode_retry decode_retry
decode-encode_retry w validate none text f h = ground arith
decode-encode_retry w validate (some r) text f h = ground (arith, f r refl)

-- The job that a row is to be read back as.
abbrev asked_job : {J : Type 0} → JobRow → PushOptions J → ℕ → Job J
asked_job new o created_at = record {
  id = new.id;
  capability = new.capability;
  fn = o.fn;
  time = new.time;
  payload = o.payload;
  payload_present = is_some o.payload;
  retry = o.retry;
  singleflight = eqb new.singleflight 1;
  exclusive = eqb new.exclusive 1;
  recovery_loop = eqb new.recovery_loop 1;
  created_at = created_at;
}

-- A job is what a caller's options say, under its id or the generated one, with flags that are bools
-- and the whole number of the time.
pub record IsAsked {J : Type 0} (c generated : String) (o : PushOptions J) (job : Job J)
    : Type 0 where
  own : job.capability ≡ c
  under : job.id ≡ coalesce o.id generated
  calls : job.fn ≡ o.fn
  floor : IsFloor o.time job.time
  carries : (job.payload ≡ o.payload) × (job.payload_present ≡ is_some o.payload)
  retries : job.retry ≡ o.retry
  one_flight : o.singleflight ≡ flag job.singleflight
  alone : o.exclusive ≡ flag job.exclusive
  recovers : o.recovery_loop ≡ flag job.recovery_loop

flag_read : (f : Flag) → is_flag f ≡ true → f ≡ flag (eqb (flag_int f) 1)
flag_read (flag true) h = refl
flag_read (flag false) h = refl
flag_read Flag.other h = absurd (cc)

decode-payload_text :
    {J : Type 0} (w : Wire J) (p : Option J)
    → ((j : J) → p ≡ some j → w.loads (w.dumps j) ≡ some j)
    → decode_payload w (payload_text w p) ≡ returned p
unfolding decode_payload
decode-payload_text w none f = refl
decode-payload_text w (some j) f = rw (f j refl) refl

present-payload_text :
    {J : Type 0} (w : Wire J) (p : Option J) → is_some (payload_text w p) ≡ is_some p
present-payload_text w none = refl
present-payload_text w (some j) = refl

module _ {J : Type 0} (w : Wire J) (validate : Bool) (generated : String) (now : ℕ) (c : String)
    (o : PushOptions J) (faithful : IsFaithful w o) (new : JobRow)
    (accepted : new_row w validate generated now c o ≡ returned new) where
  -- What the accepted row keeps of the options.
  accepted_columns :
      (new.capability ≡ c)
      × (new.fn ≡ o.fn)
      × (new.running ≡ 0)
      × (new.execution_started_at ≡ none)
      × (new.time ≤ max_sqlite_integer)
      × (new.payload ≡ payload_text w o.payload)
      × (encode_retry w validate o.retry ≡ returned new.retry_options)
  unfolding new_row
  accepted_columns = ground (arith, validate_time_bounds o.time new.time)

  accepted_flags :
      (new.id ≡ coalesce o.id generated)
      × (new.singleflight ≡ flag_int o.singleflight)
      × (new.exclusive ≡ flag_int o.exclusive)
      × (new.recovery_loop ≡ flag_int o.recovery_loop)
      × (new.hung_timeout_seconds ≡ timeout_value o.hung_timeout_seconds)
      × (new.created_at ≡ now)
      × (validate_job_flags o ≡ true)
  unfolding new_row
  accepted_flags = ground arith

  accepted-IsFloor : IsFloor o.time new.time
  accepted-IsFloor = (validate_time_bounds o.time new.time accepted_time).1
    where
      accepted_time : validate_time o.time ≡ some new.time
      accepted_time = unfold new_row in ground arith

  bools :
      (is_flag o.singleflight ≡ true)
      × (is_flag o.exclusive ≡ true)
      × (is_flag o.recovery_loop ≡ true)
  unfolding validate_job_flags
  bools = let h = accepted_flags.6 in ground arith

  asked : (created_at : ℕ) → IsAsked c generated o (asked_job new o created_at)
  asked created_at = record {
    own = accepted_columns.0;
    under = accepted_flags.0;
    calls = refl;
    floor = accepted-IsFloor;
    carries = (refl, refl);
    retries = refl;
    one_flight = read o.singleflight new.singleflight bools.0 accepted_flags.1;
    alone = read o.exclusive new.exclusive bools.1 accepted_flags.2;
    recovers = read o.recovery_loop new.recovery_loop bools.2 accepted_flags.3;
  }
    where
      read : (f : Flag) (n : ℕ) → is_flag f ≡ true → n ≡ flag_int f → f ≡ flag (eqb n 1)
      read f n ok e = flag_read f ok ∙ rw e refl

  -- Reading a stored row that has the accepted columns gives the job that was asked for.
  read_back :
      (r : JobRow)
      → r.id ≡ new.id
      → r.capability ≡ new.capability
      → overwritten new r ≡ r
      → job_from_row w validate r ≡ returned (asked_job new o r.created_at)
  unfolding job_from_row
  read_back r same_id same_capability written = ground (
    arith,
    accepted_columns,
    validate_time-int new.time,
    decode-payload_text w o.payload faithful.payload_reads,
    present-payload_text w o.payload,
    decode-encode_retry w validate o.retry new.retry_options faithful.retry_reads,
  )

  -- The job of the pushed id, once the table has taken the row, and what `push` makes of it.
  get_accepted :
      (t : Table) (r : JobRow)
      → first (is_job c new.id) t ≡ some r
      → overwritten new r ≡ r
      → get w validate c new.id t ≡ returned (some (asked_job new o r.created_at))
  unfolding get
  get_accepted t r found written =
      rw (found, get)
        (rw
          (read_back r (ground (arith, eq_iff r.id new.id, first_passes _ t found))
            (ground (arith, accepted_columns, eq_iff r.capability c, first_passes _ t found))
            written)
          refl)

  push_accepted :
      (t : Table) (r : JobRow)
      → first (is_job c new.id) (upsert new t) ≡ some r
      → overwritten new r ≡ r
      → push w validate generated now c o t
        ≡ (returned (asked_job new o r.created_at), upsert new t)
  unfolding push pushed
  push_accepted t r found written =
      rw (accepted, push) (rw (get_accepted (upsert new t) r found written) refl)

  module _ (t : Table) (unique : IsUnique (λ (r : JobRow). r.id == new.id) t) where
    on_id : (r : JobRow) → is_job c new.id r ≡ true → (r.id == new.id) ≡ true
    on_id r h = ground arith

    -- The push has returned a job, which the stored row of its id reads back as, and that row is idle.
    abbrev pub Pushed : ℕ → JobRow → Type 0
    Pushed created_at r =
        (push w validate generated now c o t
          ≡ (returned (asked_job new o created_at), upsert new t))
        × (first (λ (x : JobRow). x.id == new.id) (upsert new t) ≡ some r)
        × (r.running ≡ 0)
        × (r.execution_started_at ≡ none)
        × (job_from_row w validate r ≡ returned (asked_job new o created_at))
        × (r.hung_timeout_seconds ≡ timeout_value o.hung_timeout_seconds)

    inserted : first (λ (x : JobRow). x.id == new.id) t ≡ none → Pushed new.created_at new
    unfolding upsert first
    inserted fresh =
        let free : exists (λ (x : JobRow). x.id == new.id) t ≡ false =
          exists-first-none _ t fresh in
        let own : (new.capability == c) ≡ true = (eq_iff new.capability c).1 accepted_columns.0 in
        (
          push_accepted t new (rw free (rw (eq_refl new.id, own) refl))
              (ground (arith, accepted_columns)),
          rw free (rw (eq_refl new.id) refl),
          accepted_columns.2,
          accepted_columns.3,
          read_back new refl refl (ground (arith, accepted_columns)),
          accepted_flags.4,
        )

    replaced :
        (r : JobRow)
        → first (λ (x : JobRow). x.id == new.id) t ≡ some r
        → r.capability ≡ c
        → Pushed r.created_at (overwritten new r)
    unfolding upsert
    replaced r found own =
        let here : exists (λ (x : JobRow). x.id == new.id) t ≡ true = exists_first _ t found in
        let hit : is_job new.capability new.id r ≡ true =
          ground
            (arith, first_passes _ t found, eq_iff r.capability new.capability, accepted_columns) in
        let hit' : is_job c new.id r ≡ true =
          ground (arith, first_passes _ t found, eq_iff r.capability c) in
        let after : first (is_job c new.id)
              (update (is_job new.capability new.id) (overwritten new) t)
            ≡ some (overwritten new r) =
          first-update_hit _ _ (overwritten new) t (λ x h. refl)
            (first_narrow (is_job c new.id) _ t on_id found hit')
          ∙ rw hit refl in
        (
          push_accepted t (overwritten new r) (rw here after) refl,
          rw here (first-update_hit _ _ (overwritten new) t (λ x h. refl) found ∙ rw hit refl),
          refl,
          refl,
          read_back (overwritten new r) (ground (arith, eq_iff r.id new.id, first_passes _ t found))
              (own ∙ sym accepted_columns.0) refl,
          accepted_flags.4,
        )

    pub push_rows :
        ((r : JobRow) → first (λ (x : JobRow). x.id == new.id) t ≡ some r → r.capability ≡ c)
        → (created_at : ℕ) × (r : JobRow) × Pushed created_at r
    push_rows mine = elim (Option-cases (first (λ (x : JobRow). x.id == new.id) t)) [
      | inl fresh ↦ (new.created_at, new, inserted fresh)
      | inr (r, found) ↦ (r.created_at, overwritten new r, replaced r found (mine r found))
    ]

    -- When the row of a pushed job was created: at the first push of its id.
    abbrev pub created : Option JobRow → ℕ
    created none = now
    created (some r) = r.created_at

    -- What a push that is accepted comes to.
    pub record IsPushed (job : Job J) (r : JobRow) : Type 0 where
      returns : (push w validate generated now c o t).0 ≡ returned job
      is_asked : IsAsked c generated o job
      since : job.created_at ≡ created (first (λ (x : JobRow). x.id == new.id) t)
      stored :
          first (λ (x : JobRow). x.id == job.id) (push w validate generated now c o t).1 ≡ some r
      reads : job_from_row w validate r ≡ returned job
      timeout : r.hung_timeout_seconds ≡ timeout_value o.hung_timeout_seconds
      not_running : (r.running ≡ 0) × (r.execution_started_at ≡ none)

    is_pushed :
        (created_at : ℕ) (r : JobRow)
        → created (first (λ (x : JobRow). x.id == new.id) t) ≡ created_at
        → Pushed created_at r
        → IsPushed (asked_job new o created_at) r
    is_pushed created_at r at (does, stored, running, started, reads, timeout) = record {
      returns = ap (λ (x : Raising (Job J) × Table). x.0) does;
      is_asked = asked created_at;
      since = sym at;
      stored = rw does stored;
      reads = reads;
      timeout = timeout;
      not_running = (running, started);
    }

    -- Where the JSON codec reads back what it writes, and the options pass every check: a push of a new
    -- id, or of an id that the capability owns, returns the job that was asked for. It has the options'
    -- function, payload, retry options and flags, the capability, the given id or the generated one, and
    -- the whole number of the given time; over an owned id it keeps the creation time. The row that is
    -- stored under the id is read back as that job, has the hung timeout of the options, and is idle.
    pub push_owned :
        ((r : JobRow) → first (λ (x : JobRow). x.id == new.id) t ≡ some r → r.capability ≡ c)
        → (job : Job J) × (r : JobRow) × IsPushed job r
    push_owned mine = elim (Option-cases (first (λ (x : JobRow). x.id == new.id) t)) [
      | inl fresh ↦ (
        asked_job new o new.created_at,
        new,
        is_pushed new.created_at new (rw fresh (sym accepted_flags.5)) (inserted fresh),
      )
      | inr (r, found) ↦ (
        asked_job new o r.created_at,
        overwritten new r,
        is_pushed r.created_at (overwritten new r) (rw found refl)
            (replaced r found (mine r found)),
      )
    ]

    -- A push of an id that another capability owns raises with the owner's name and changes nothing.
    pub push_foreign :
        (r : JobRow)
        → first (λ (x : JobRow). x.id == new.id) t ≡ some r
        → r.capability ≢ c
        → push w validate generated now c o t ≡ (raised (foreign_owner r.capability), t)
    unfolding push pushed
    push_foreign r found theirs =
        let missing : exists (is_job c new.id) t ≡ false =
          exists_at_key (is_job c new.id) _ t on_id unique ∙ rw found (not_mine r theirs) in
        let here : exists (λ (x : JobRow). x.id == new.id) t ≡ true = exists_first _ t found in
        let same : upsert new t ≡ t =
          unfold upsert in rw (here, accepted_columns.0) (update_missing _ _ t missing) in
        let unread : get w validate c new.id t ≡ returned none =
          unfold get in rw (first-none _ t missing, get) refl in
        rw (accepted, push) (rw same (rw unread (rw (found, pushed) refl)))
      where
        not_mine : (x : JobRow) → x.capability ≢ c → is_job c new.id x ≡ false
        not_mine x ne = ground (arith, eq_iff x.capability c)
