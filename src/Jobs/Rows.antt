-- ===== src/Jobs/Rows.antt =====
-- The rows and option values of agents/lifecycle/jobs.py. JSON text is a parameter, `Wire`.
use agents_python_cloudflare.Prelude.{ℕ, String, ◌≡◌, Bool, Option, some, List}

-- What Python's number and non-number values are to the queue. A float m / 2^k is exact.
pub data Number : Type 0 where
  int : ℕ → Number
  float : ℕ → ℕ → Number
  negative : Number
  not_finite : Number
  other : Number

-- A value where a bool is wanted, and one where an optional int is wanted.
pub data Flag : Type 0 where
  flag : Bool → Flag
  other : Flag

pub data Timeout : Type 0 where
  seconds : ℕ → Timeout
  other : Timeout

-- A dict of retry options.
abbrev pub Retry : Type 0
Retry = List (String × Number)

pub record PushOptions (J : Type 0) : Type 0 where
  pub fn : String
  pub time : Number
  pub payload : Option J
  pub id : Option String
  pub retry : Option Retry
  pub singleflight : Flag
  pub hung_timeout_seconds : Option Timeout
  pub exclusive : Flag
  pub recovery_loop : Flag

pub record Job (J : Type 0) : Type 0 where
  pub id : String
  pub capability : String
  pub fn : String
  pub time : ℕ
  pub payload : Option J
  pub payload_present : Bool
  pub retry : Option Retry
  pub singleflight : Bool
  pub exclusive : Bool
  pub recovery_loop : Bool
  pub created_at : ℕ

-- A row of cf_agents_jobs.
pub record JobRow : Type 0 where
  pub id : String
  pub capability : String
  pub fn : String
  pub time : ℕ
  pub payload : Option String
  pub retry_options : Option String
  pub singleflight : ℕ
  pub hung_timeout_seconds : Option ℕ
  pub exclusive : ℕ
  pub recovery_loop : ℕ
  pub running : ℕ
  pub execution_started_at : Option ℕ
  pub created_at : ℕ

-- What an executed job asks for.
pub data Outcome : Type 0 where
  finished : Outcome
  yield : Outcome
  reschedule_at : Number → Outcome
  invalid : Outcome

pub data JobError : Type 0 where
  invalid_time empty_fn empty_id invalid_retry invalid_flag invalid_timeout invalid_payload :
      JobError
  foreign_owner : String → JobError
  not_persisted : JobError
  invalid_outcome : JobError

-- A call that raises or returns.
pub data Raising {ℓ} (A : Type ℓ) : Type ℓ where
  raised : JobError → Raising A
  returned : A → Raising A

-- JSON text as the queue stores it: `none` where the text cannot be read.
pub record Wire (J : Type 0) : Type 0 where
  pub dumps : J → String
  pub loads : String → Option J
  pub dumps_retry : Retry → String
  pub loads_retry : String → Option Retry

-- The payload and the retry options of a push read back from the text that is written for them.
pub record IsFaithful {J : Type 0} (w : Wire J) (o : PushOptions J) : Type 0 where
  pub payload_reads : (j : J) → o.payload ≡ some j → w.loads (w.dumps j) ≡ some j
  pub retry_reads : (r : Retry) → o.retry ≡ some r → w.loads_retry (w.dumps_retry r) ≡ some r
