-- ===== src/Breaker/Tracker.antt =====
-- `ConsecutiveFailureTracker` of src/mev/retry.rs: a counter under a mutex.
use torpc.Common.{ℕ, zero, suc, ◌+◌, ◌<◌, ◌≤◌, ◌↔◌, ◌^◌, ◌≡◌, Bool, true, arith, u32, leb}

pub record ConsecutiveFailureTracker : Type 0 where
  pub failures : ℕ  -- u32
  pub threshold : ℕ  -- u32

unfoldable pub new : ℕ → ConsecutiveFailureTracker
new threshold = record { failures = 0; threshold = threshold }

unfoldable pub record_success : ConsecutiveFailureTracker → ConsecutiveFailureTracker
record_success t = record t { failures = 0 }

unfoldable pub record_failure : ConsecutiveFailureTracker → ConsecutiveFailureTracker × Bool
record_failure t =
    let failures = u32 (t.failures + 1) in
    (record t { failures = failures }, leb t.threshold failures)

unfoldable pub should_open : ConsecutiveFailureTracker → Bool
should_open t = leb t.threshold t.failures

-- The tracker after n failures in a row.
unfoldable pub fail_times : ℕ → ConsecutiveFailureTracker → ConsecutiveFailureTracker
fail_times zero t = t
fail_times (suc n) t = fail_times n (record_failure t).0

fail_times-count :
    (n : ℕ) (t : ConsecutiveFailureTracker)
    → t.failures + n < 2 ^ 32
    → ((fail_times n t).failures ≡ t.failures + n) × ((fail_times n t).threshold ≡ t.threshold)
unfolding fail_times record_failure
fail_times-count zero t h = ground arith
fail_times-count (suc n) t h = ground (arith, fail_times-count n (record_failure t).0)

-- After a success and then n failures in a row, fewer than 2 ^ 32, the tracker asks to open exactly
-- when n has reached the threshold; the last failure reports the same.
pub should_open-fail_times :
    (n : ℕ) (t : ConsecutiveFailureTracker)
    → suc n < 2 ^ 32
    → let failed = fail_times n (record_success t) in
      ((should_open failed ≡ true) ↔ (t.threshold ≤ n))
      × (((record_failure failed).1 ≡ true) ↔ (t.threshold ≤ suc n))
unfolding should_open record_success record_failure
should_open-fail_times n t h = ground (arith, fail_times-count n (record_success t) (omega arith))
