-- ===== src/Tasks/Delays.antt =====
-- The delay before a retry: the shortcut of the exponential backoff agrees with the plain formula.
use Prim.Native.Nat.{min, ◌/◌}
use native.Mathlib.Nat.{one-le-pow, pow-suc, pow-le-pow_right}
use agents_python_cloudflare.Prelude.{
  ℕ, zero, suc, ◌-◌, ◌*◌, ◌^◌, ◌≤◌, ◌<◌, ◌≡◌, refl, inl, inr, arith, eqb, leb, Bool-cases,
}
use agents_python_cloudflare.Tasks.Policy.{
  Backoff, constant, linear, exponential, ResolvedStepPolicy, max_retry_delay_ms, bits, bit_length,
  ceil_div, backoff_delay, retry_delay,
}

-- The delay without a bound.
abbrev pub unbounded : Backoff → ℕ → ℕ → ℕ
unbounded constant delay n = delay
unbounded linear delay n = delay * n
unbounded exponential delay n = delay * 2 ^ (n - 1)

pow_pos : (n : ℕ) → 0 < 2 ^ n
pow_pos n = one-le-pow n 2 (omega arith)

-- A number is below the power of two of its length.
below_bits : (rounds n : ℕ) → n ≤ rounds → n < 2 ^ bits rounds n
unfolding bits
below_bits zero n h = omega arith
below_bits (suc rounds) n h = elim (Bool-cases (eqb n 0)) [
  | inl e ↦ rw e (ground arith)
  | inr e ↦ rw e (
      rw (pow-suc 2 (bits rounds (n / 2)))
        (omega (arith, below_bits rounds (n / 2) (ground arith))))
]

ceil_div-above : (a b : ℕ) → 0 < b → a ≤ ceil_div a b * b
unfolding ceil_div
ceil_div-above a b h = grind arith

product_bound : (m c d p : ℕ) → m ≤ c * d → c ≤ p → m ≤ d * p
product_bound m c d p h k = grind arith

no_delay : (d x m : ℕ) → d ≡ 0 → 0 ≡ min (d * x) m
no_delay d x m e = rw e (grind arith)

-- Where the shortcut is taken, the plain formula passes the bound too.
shortcut :
    (delay e : ℕ)
    → 0 < delay
    → bit_length (ceil_div max_retry_delay_ms delay) ≤ e
    → max_retry_delay_ms ≤ delay * 2 ^ e
unfolding bit_length
shortcut delay e pos h =
    let c : ℕ = ceil_div max_retry_delay_ms delay in
    let below : c < 2 ^ bits c c = below_bits c c (omega arith) in
    let mono : 2 ^ bits c c ≤ 2 ^ e = pow-le-pow_right (omega arith) h in
    let above : max_retry_delay_ms ≤ c * delay = ceil_div-above max_retry_delay_ms delay pos in
    product_bound max_retry_delay_ms c delay (2 ^ e) above (omega (arith, below, mono))

-- The delay is that of the plain formula, cut at one day, for every backoff: the shortcut that
-- saves the exponential one its large powers changes nothing.
pub retry_delay_correct :
    (policy : ResolvedStepPolicy) (failed_attempt : ℕ)
    → retry_delay policy failed_attempt
      ≡ min (unbounded policy.backoff policy.retry_delay_ms failed_attempt) max_retry_delay_ms
unfolding retry_delay backoff_delay
retry_delay_correct policy n = go policy.backoff
  where
    go :
        (b : Backoff)
        → backoff_delay b policy.retry_delay_ms n
          ≡ min (unbounded b policy.retry_delay_ms n) max_retry_delay_ms
    go constant = refl
    go linear = refl
    go exponential = elim (Bool-cases (eqb policy.retry_delay_ms 0)) [
      | inl zero_delay ↦
          rw zero_delay
            (no_delay policy.retry_delay_ms (2 ^ (n - 1)) max_retry_delay_ms (ground arith))
      | inr some_delay ↦
          rw some_delay
            (elim (Bool-cases
              (leb (bit_length (ceil_div max_retry_delay_ms policy.retry_delay_ms)) (n - 1))) [
                | inl far ↦ rw far (
                    omega
                      (arith, shortcut policy.retry_delay_ms (n - 1) (ground arith) (ground arith)))
                | inr near ↦ rw near refl
              ])
    ]
