-- ===== src/Tasks/Policy.antt =====
-- The retry policy of a step, and the checks on its name and its deadlines (agents/tasks.py).
use Prim.Native.Char.{code}
use Prim.Native.Nat.{min, ◌/◌}
use agents_python_cloudflare.Prelude.{
  ℕ, zero, suc, ◌+◌, ◌-◌, ◌*◌, ◌^◌, String, Bool, true, false, ◌&&◌, not, eqb, leb, ltb, ◌==◌,
  if◌then◌else◌,
}

pub data Backoff : Type 0 where
  constant linear exponential : Backoff

pub record ResolvedStepPolicy : Type 0 where
  pub retry_limit : ℕ
  pub retry_delay_ms : ℕ
  pub backoff : Backoff
  pub timeout_ms : ℕ

abbrev pub max_definition_name_length : ℕ
max_definition_name_length = 256

abbrev pub max_steps_per_run : ℕ
max_steps_per_run = 10_000

abbrev pub max_retry_delay_ms : ℕ
max_retry_delay_ms = 24 * 60 * 60 * 1_000

abbrev pub claim_slack_ms : ℕ
claim_slack_ms = 30_000

abbrev pub max_sqlite_integer : ℕ
max_sqlite_integer = 2 ^ 63 - 1

-- int.bit_length, halving; as many rounds as the number are enough.
unfoldable pub bits : ℕ → ℕ → ℕ
bits zero n = 0
bits (suc rounds) n = let rest = bits rounds (n / 2) in if eqb n 0 then 0 else suc rest

unfoldable pub bit_length : ℕ → ℕ
unfolding bits
bit_length n = bits n n

-- math.ceil(a / b). The float quotient of two numbers has an integer's ceiling one too high or too
-- low only where they are far beyond 2^53, which max_retry_delay_ms is not.
unfoldable pub ceil_div : ℕ → ℕ → ℕ
ceil_div a b = (a + b - 1) / b

unfoldable pub backoff_delay : Backoff → ℕ → ℕ → ℕ
unfolding bit_length ceil_div
backoff_delay constant delay failed_attempt = min delay max_retry_delay_ms
backoff_delay linear delay failed_attempt = min (delay * failed_attempt) max_retry_delay_ms
backoff_delay exponential delay failed_attempt =
    if eqb delay 0
    then 0
    else if leb (bit_length (ceil_div max_retry_delay_ms delay)) (failed_attempt - 1)
    then max_retry_delay_ms
    else min (delay * 2 ^ (failed_attempt - 1)) max_retry_delay_ms

unfoldable pub retry_delay : ResolvedStepPolicy → ℕ → ℕ
unfolding backoff_delay
retry_delay policy failed_attempt =
    backoff_delay policy.backoff policy.retry_delay_ms failed_attempt

-- The length in UTF-16 code units.
unfoldable pub utf16_length : String → ℕ
utf16_length String.[] = 0
utf16_length (String.◌∷◌ c s) = (if ltb (code c) 0x10000 then 1 else 2) + utf16_length s

unfoldable pub starts_with : String → String → Bool
starts_with String.[] s = true
starts_with (String.◌∷◌ p ps) String.[] = false
starts_with (String.◌∷◌ p ps) (String.◌∷◌ c s) = eqb (code p) (code c) && starts_with ps s

-- `false` is the ValueError.
unfoldable pub validate_step_name : String → Bool
unfolding utf16_length starts_with
validate_step_name name =
    not (name == "")
    && (leb (utf16_length name) max_definition_name_length && not (starts_with "__cf" name))

unfoldable pub validate_deadline : ℕ → Bool
validate_deadline value = leb value max_sqlite_integer
