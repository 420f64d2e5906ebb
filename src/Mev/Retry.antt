-- ===== src/Mev/Retry.antt =====
-- `RetryPolicy` of src/mev/retry.rs.
--
-- The source computes delays in `f64`. Here the jitter factor is the fraction
-- `jitter_num / jitter_den`, and what the random generator draws from the range of plus or minus
-- `jitter_range` is `draw / jitter_den - jitter_range` with `draw` from 0 to twice the range in
-- units of 1 / `jitter_den` milliseconds. `f64` is exact on the whole milliseconds that are below
-- 2 ^ 53; its rounding of the jitter is not modelled.
use native.Mathlib.Nat.{
  div-add-mod, mod-lt, div-mul-le_self, le-div_iff_mul-le, mul-add, mul-le-mul_right,
}
use torpc.Common.{
  ap, ℕ, ◌+◌, ◌-◌, ◌*◌, ◌/◌, ◌^◌, ◌<◌, ◌≤◌, min, ◌≡◌, String, Bool, true, false, not, ◌||◌, arith,
  u32, contains_text, if◌then◌else◌,
}

pub record RetryPolicy : Type 0 where
  pub max_attempts : ℕ  -- u32
  pub initial_delay : ℕ  -- nanoseconds
  pub max_delay : ℕ  -- nanoseconds
  pub jitter_num : ℕ
  pub jitter_den : ℕ

abbrev pub millisecond : ℕ
millisecond = 1_000_000

unfoldable pub default_policy : RetryPolicy
default_policy = record {
  max_attempts = 3;
  initial_delay = 100 * millisecond;
  max_delay = 5000 * millisecond;
  jitter_num = 1;
  jitter_den = 4;
}

-- The delay before jitter, in milliseconds; `2_u32.pow` wraps around.
unfoldable pub capped_delay : RetryPolicy → ℕ → ℕ
capped_delay p attempt =
    let base_delay = p.initial_delay / millisecond * u32 (2 ^ attempt) in
    min base_delay (p.max_delay / millisecond)

-- The delay in nanoseconds; the truncated subtraction is the source's `.max(0.0)`.
unfoldable pub calculate_delay : RetryPolicy → ℕ → ℕ → ℕ
unfolding capped_delay
calculate_delay p attempt draw =
    let capped = capped_delay p attempt in
    let jitter_range = capped * p.jitter_num in
    (capped * p.jitter_den + draw - jitter_range) / p.jitter_den * millisecond

unfoldable pub should_retry : String → Bool
should_retry error =
    if contains_text error "authentication" || contains_text error "unauthorized"
    then false
    else if contains_text error "invalid" || contains_text error "malformed"
    then false
    else if contains_text error "timeout"
        || (contains_text error "connection"
            || (contains_text error "network" || contains_text error "temporarily unavailable"))
    then true
    else true

-- An error is retried exactly when its text has none of four words; the list of transient errors
-- that the code goes through after these makes no difference.
pub should_retry_iff :
    (error : String)
    → should_retry error
      ≡ not (
          contains_text error "authentication"
          || (contains_text error "unauthorized"
              || (contains_text error "invalid" || contains_text error "malformed")))
unfolding should_retry
should_retry_iff error = ground arith

split_delay :
    (c n den draw : ℕ)
    → 0 < den
    → n ≤ den
    → draw ≤ 2 * (c * n)
    → let t = (c * den + draw - c * n) / den * millisecond / millisecond in
      (c * (den - n) < (t + 1) * den) × (t * den ≤ c * (den + n))
split_delay c n den draw pos small in_range =
    let x = c * den + draw - c * n in
    let e : n + (den - n) ≡ den = omega arith in
    let q : x / den * millisecond / millisecond ≡ x / den = omega arith in
    rw q (omega (arith, div-add-mod x den, mod-lt x pos, ap (λ (t : ℕ). c * t) e))

-- For a jitter factor of at most 1 and any draw in range, the delay in milliseconds is within the
-- factor of the capped exponential delay, rounded down: with c the capped delay, n / d the factor
-- and t the delay, c (d - n) < (t + 1) d and t d ≤ c (d + n).
pub calculate_delay_bounds :
    (p : RetryPolicy) (attempt draw : ℕ)
    → 0 < p.jitter_den
    → p.jitter_num ≤ p.jitter_den
    → draw ≤ 2 * (capped_delay p attempt * p.jitter_num)
    → let t = calculate_delay p attempt draw / millisecond in
      let c = capped_delay p attempt in
      (c * (p.jitter_den - p.jitter_num) < (t + 1) * p.jitter_den)
      × (t * p.jitter_den ≤ c * (p.jitter_den + p.jitter_num))
unfolding calculate_delay
calculate_delay_bounds p attempt draw pos small in_range =
    split_delay (capped_delay p attempt) p.jitter_num p.jitter_den draw pos small in_range

div_mono : (x y : ℕ) {k : ℕ} → 0 < k → x ≤ y → x / k ≤ y / k
div_mono x y {k} pos h = (le-div_iff_mul-le pos).1 (omega (arith, div-mul-le_self x k))

-- The longest delay that the policy allows.
abbrev pub longest_delay : RetryPolicy → ℕ
longest_delay p =
    p.max_delay / millisecond * (p.jitter_den + p.jitter_num) / p.jitter_den * millisecond

pub calculate_delay-le :
    (p : RetryPolicy) (attempt draw : ℕ)
    → 0 < p.jitter_den
    → draw ≤ 2 * (capped_delay p attempt * p.jitter_num)
    → calculate_delay p attempt draw ≤ longest_delay p
unfolding calculate_delay
calculate_delay-le p attempt draw pos in_range =
    let c = capped_delay p attempt in
    let most = p.max_delay / millisecond in
    let x = c * p.jitter_den + draw - c * p.jitter_num in
    let capped : c ≤ most = omega arith in
    let top : x ≤ most * (p.jitter_den + p.jitter_num) = omega (
      arith,
      mul-add c p.jitter_den p.jitter_num,
      mul-le-mul_right (p.jitter_den + p.jitter_num) capped,
    ) in
    mul-le-mul_right millisecond (div_mono x (most * (p.jitter_den + p.jitter_num)) pos top)
