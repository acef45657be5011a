-- ===== src/Jobs/Validation.antt =====
-- The validators of agents/lifecycle/jobs.py.
use Prim.Native.Char.{code}
use agents_python_cloudflare.Prelude.{
  ℕ, ◌-◌, ◌*◌, ◌^◌, String, Bool, true, false, ◌&&◌, ◌||◌, not, Option, none, some, [], ◌∷◌, ◌==◌,
  ltb, leb, eqb, if◌then◌else◌,
}
use Prim.Native.Nat.{◌/◌}
use agents_python_cloudflare.Jobs.Rows.{
  Number, int, float, not_finite, Flag, flag, Timeout, seconds, Retry, PushOptions,
}

abbrev pub max_sqlite_integer : ℕ
max_sqlite_integer = 2 ^ 63 - 1

abbrev pub max_hung_timeout_seconds : ℕ
max_hung_timeout_seconds = max_sqlite_integer / 1000

-- The least int that `math.isfinite` cannot convert to a float.
unfoldable pub float_overflow : ℕ
float_overflow = 2 ^ 1024 - 2 ^ 970

unfoldable pub number_is_finite : Number → Bool
number_is_finite (int n) = ltb n float_overflow
number_is_finite not_finite = false
number_is_finite _ = true

-- `none` is the ValueError. A float m / 2^k is above the largest integer N where N * 2^k < m.
unfoldable pub validate_time : Number → Option ℕ
unfolding number_is_finite
validate_time (int n) =
    if not (number_is_finite (int n)) || ltb max_sqlite_integer n then none else some n
validate_time (float m k) = if ltb (max_sqlite_integer * 2 ^ k) m then none else some (m / 2 ^ k)
validate_time _ = none

-- options.get(key, default)
unfoldable pub option_or : String → Number → Retry → Number
option_or key d [] = d
option_or key d ((k, v) ∷ rest) = if k == key then v else option_or key d rest

unfoldable pub has_unknown : Retry → Bool
has_unknown [] = false
has_unknown ((k, v) ∷ rest) =
    not (k == "maxAttempts" || (k == "baseDelayMs" || k == "maxDelayMs")) || has_unknown rest

-- type(x) is int and finite and x >= 1
unfoldable pub is_attempt_count : Number → Bool
unfolding number_is_finite
is_attempt_count (int n) = number_is_finite (int n) && leb 1 n
is_attempt_count _ = false

unfoldable pub positive_retry_number : Number → Bool
unfolding number_is_finite
positive_retry_number (int n) = number_is_finite (int n) && ltb 0 n
positive_retry_number (float m k) = ltb 0 m
positive_retry_number _ = false

-- a <= b on positive numbers
unfoldable pub number_leb : Number → Number → Bool
number_leb (int m) (int n) = leb m n
number_leb (int m) (float n k) = leb (m * 2 ^ k) n
number_leb (float m k) (int n) = leb m (n * 2 ^ k)
number_leb (float m k) (float n l) = leb (m * 2 ^ l) (n * 2 ^ k)
number_leb _ _ = false

-- `true` where no ValueError is raised.
unfoldable pub validate_retry : Retry → Bool
unfolding option_or has_unknown is_attempt_count positive_retry_number number_leb
validate_retry options =
    let base_delay = option_or "baseDelayMs" (int 100) options in
    let max_delay = option_or "maxDelayMs" (int 3000) options in
    not (has_unknown options)
    && (is_attempt_count (option_or "maxAttempts" (int 3) options)
        && (positive_retry_number base_delay
            && (positive_retry_number max_delay && number_leb base_delay max_delay)))

abbrev pub is_flag : Flag → Bool
is_flag (flag b) = true
is_flag Flag.other = false

abbrev pub is_timeout : Option Timeout → Bool
is_timeout none = true
is_timeout (some (seconds n)) = leb 1 n && leb n max_hung_timeout_seconds
is_timeout (some Timeout.other) = false

-- `true` where no ValueError is raised.
unfoldable pub validate_job_flags : {J : Type 0} → PushOptions J → Bool
validate_job_flags o =
    is_flag o.singleflight
    && (is_flag o.exclusive && (is_flag o.recovery_loop && is_timeout o.hung_timeout_seconds))

-- The characters that `str.strip` removes.
unfoldable pub is_space : ℕ → Bool
is_space c =
    (leb 9 c && leb c 13)
    || ((leb 28 c && leb c 32)
        || (eqb c 0x85
            || (eqb c 0xa0
                || (eqb c 0x1680
                    || ((leb 0x2000 c && leb c 0x200a)
                        || (eqb c 0x2028
                            || (eqb c 0x2029
                                || (eqb c 0x202f || (eqb c 0x205f || eqb c 0x3000)))))))))

-- not value.strip()
unfoldable pub is_blank : String → Bool
unfolding is_space
is_blank String.[] = true
is_blank (String.◌∷◌ c s) = is_space (code c) && is_blank s
