-- ===== src/Jobs/Codec.antt =====
-- Rows of agents/lifecycle/jobs.py as jobs, and retry options as text.
use agents_python_cloudflare.Prelude.{
  String, Bool, true, false, ◌&&◌, not, Option, none, some, eqb, is_some, if◌then◌else◌,
}
use agents_python_cloudflare.Jobs.Rows.{
  Number, Retry, Job, JobRow, JobError, invalid_time, invalid_retry, invalid_payload, Raising,
  returned, raised, Wire,
}
use agents_python_cloudflare.Jobs.Validation.{validate_time, validate_retry}

module _ {ℓ κ} {A : Type ℓ} {B : Type κ} where
  infixl 5 ◌>>=◌ ◌>>◌
  abbrev pub ◌>>=◌ : Raising A → (A → Raising B) → Raising B
  raised e >>= continue = raised e
  returned a >>= continue = continue a

  abbrev pub ◌>>◌ : Raising A → Raising B → Raising B
  before >> after = before >>= (λ _. after)

abbrev pub or_raise {ℓ} : {A : Type ℓ} → Option A → JobError → Raising A
or_raise none e = raised e
or_raise (some a) e = returned a

abbrev pub guard : Bool → JobError → Raising (Unit {0})
guard true e = returned tt
guard false e = raised e

-- retry options as text, validated or not; an absent dict is NULL
module _ {J : Type 0} (w : Wire J) where
  unfoldable pub encode_retry : Bool → Option Retry → Raising (Option String)
  encode_retry validate none = returned none
  encode_retry validate (some r) =
      if validate && not (validate_retry r)
      then raised invalid_retry
      else returned (some (w.dumps_retry r))

  unfoldable pub decode_retry : Bool → Option String → Raising (Option Retry)
  decode_retry validate none = returned none
  decode_retry validate (some text) = elim (w.loads_retry text) [
    | none ↦ raised invalid_retry
    | some r ↦
        if validate && not (validate_retry r) then raised invalid_retry else returned (some r)
  ]

  unfoldable pub decode_payload : Option String → Raising (Option J)
  decode_payload none = returned none
  decode_payload (some text) = elim (w.loads text) [
    | none ↦ raised invalid_payload
    | some j ↦ returned (some j)
  ]

  unfoldable pub job_from_row : Bool → JobRow → Raising (Job J)
  unfolding decode_payload decode_retry
  job_from_row validate r = do
    time ← or_raise (validate_time (Number.int r.time)) invalid_time
    payload ← decode_payload r.payload
    retry ← decode_retry validate r.retry_options
    returned (record {
      id = r.id;
      capability = r.capability;
      fn = r.fn;
      time = time;
      payload = payload;
      payload_present = is_some r.payload;
      retry = retry;
      singleflight = eqb r.singleflight 1;
      exclusive = eqb r.exclusive 1;
      recovery_loop = eqb r.recovery_loop 1;
      created_at = r.created_at;
    })
