-- ===== src/Breaker.antt =====
-- The circuit breaker: `CircuitState` of src/mev/types.rs and `CircuitBreaker` of
-- src/mev/retry.rs, with the simpler `ConsecutiveFailureTracker` beside it.
--
-- An `Instant` is a number of nanoseconds, and each operation that reads the clock takes the
-- reading as an argument. The mutex makes every operation atomic: operations are functions from
-- one state to the next, and concurrent tasks are an arbitrary list of events (`run`).
-- `opened_at.elapsed()` saturates at zero, as the truncated subtraction does.
pub mod Invariant
pub mod Threshold
pub mod Recovery
pub mod Outage
pub mod Tracker
use torpc.Common.{ℕ, ◌+◌, ◌-◌, ◌*◌, String, Bool, true, false, List, [], ◌∷◌}
use torpc.Common.{u32, leb, if◌then◌else◌}

pub data CircuitState : Type 0 where
  closed : ℕ → CircuitState
  open_since : ℕ → CircuitState
  half_open : CircuitState

pub record CircuitBreaker : Type 0 where
  pub state : CircuitState
  pub failure_threshold : ℕ  -- u32
  pub recovery_timeout : ℕ  -- nanoseconds

unfoldable pub with_config : ℕ → ℕ → CircuitBreaker
with_config failure_threshold recovery_timeout = record {
  state = closed 0;
  failure_threshold = failure_threshold;
  recovery_timeout = recovery_timeout;
}

abbrev pub second : ℕ
second = 1_000_000_000

unfoldable pub new : CircuitBreaker
unfolding with_config
new = with_config 5 (30 * second)

-- `can_proceed` at the instant `now`, with the lazy transition from open to half-open.
can_proceed_from : CircuitState → CircuitBreaker → ℕ → CircuitBreaker × Bool
can_proceed_from (closed n) b now = (b, true)
can_proceed_from (open_since opened_at) b now =
    if leb b.recovery_timeout (now - opened_at)
    then (record b { state = half_open }, true)
    else (b, false)
can_proceed_from half_open b now = (b, true)

unfoldable pub can_proceed : CircuitBreaker → ℕ → CircuitBreaker × Bool
unfolding can_proceed_from
can_proceed b now = can_proceed_from b.state b now

success_from : CircuitState → CircuitBreaker → CircuitBreaker
success_from half_open b = record b { state = closed 0 }
success_from (closed n) b = record b { state = closed 0 }
success_from (open_since opened_at) b = b

unfoldable pub record_success : CircuitBreaker → CircuitBreaker
unfolding success_from
record_success b = success_from b.state b

failure_from : CircuitState → CircuitBreaker → ℕ → CircuitBreaker
failure_from (closed consecutive_failures) b now =
    let next = u32 (consecutive_failures + 1) in
    if leb b.failure_threshold next
    then record b { state = open_since now }
    else record b { state = closed next }
failure_from half_open b now = record b { state = open_since now }
failure_from (open_since opened_at) b now = b

unfoldable pub record_failure : CircuitBreaker → ℕ → CircuitBreaker
unfolding failure_from
record_failure b now = failure_from b.state b now

abbrev state_name : CircuitState → String
state_name (closed n) = "closed"
state_name (open_since opened_at) = "open"
state_name half_open = "half_open"

-- `contended` is true where `try_lock` fails.
unfoldable pub state_summary : CircuitBreaker → Bool → String
state_summary b contended = if contended then "unknown" else state_name b.state

-- What tasks do to a breaker that they share, one event for each acquisition of its mutex.
pub data Event : Type 0 where
  proceed : ℕ → Event
  success : Event
  failure : ℕ → Event

unfoldable pub step : CircuitBreaker → Event → CircuitBreaker
unfolding can_proceed record_success record_failure
step b (proceed now) = (can_proceed b now).0
step b success = record_success b
step b (failure now) = record_failure b now

unfoldable pub run : CircuitBreaker → List Event → CircuitBreaker
run b [] = b
run b (e ∷ es) = run (step b e) es

-- The verdicts that the `can_proceed` events of a run returned, in order.
unfoldable pub verdicts : CircuitBreaker → List Event → List Bool
verdicts b [] = []
verdicts b (proceed now ∷ es) = (can_proceed b now).1 ∷ verdicts (can_proceed b now).0 es
verdicts b (e ∷ es) = verdicts (step b e) es
