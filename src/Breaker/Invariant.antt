-- ===== src/Breaker/Invariant.antt =====
-- What holds of a breaker under any interleaving of the tasks that share it.
use torpc.Common.{ℕ, ◌<◌, ◌^◌, max, ◌≡◌, refl, List, [], ◌∷◌, arith}
use torpc.Breaker.{
  CircuitState, closed, open_since, half_open, CircuitBreaker, Event, proceed, success, failure,
}
use torpc.Breaker.{step, run}

-- The failure count of a closed breaker is below its threshold.
abbrev pub CountBelow : CircuitState → ℕ → Type 0
CountBelow (closed n) threshold = n < max 1 threshold
CountBelow (open_since opened_at) threshold = Unit
CountBelow half_open threshold = Unit

pub record IsValid (b : CircuitBreaker) : Type 0 where
  pub counted : CountBelow b.state b.failure_threshold
  pub word : b.failure_threshold < 2 ^ 32

pub step-IsValid : (b : CircuitBreaker) (e : Event) → IsValid b → IsValid (step b e)
unfolding step
step-IsValid b (proceed now) v = ground arith
step-IsValid b success v = ground arith
step-IsValid b (failure now) v = ground arith

pub step-settings :
    (b : CircuitBreaker) (e : Event)
    → ((step b e).failure_threshold ≡ b.failure_threshold)
      × ((step b e).recovery_timeout ≡ b.recovery_timeout)
unfolding step
step-settings b (proceed now) = ground arith
step-settings b success = ground arith
step-settings b (failure now) = ground arith

-- Tasks that share a breaker, in any order, leave its settings alone and keep the failure count of
-- the closed state below the threshold (below 1 where the threshold is 0).
pub run-IsValid :
    (b : CircuitBreaker) (es : List Event)
    → IsValid b
    → IsValid (run b es)
      × ((run b es).failure_threshold ≡ b.failure_threshold)
      × ((run b es).recovery_timeout ≡ b.recovery_timeout)
unfolding run
run-IsValid b [] v = (v, refl, refl)
run-IsValid b (e ∷ es) v =
    ground (arith, run-IsValid (step b e) es (step-IsValid b e v), step-settings b e)
