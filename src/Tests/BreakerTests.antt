-- ===== src/Tests/BreakerTests.antt =====
-- The breaker on concrete histories.
use torpc.Common.{◌≡◌, refl, true, false, List, [], ◌∷◌, ◌++◌, map, replicate, arith}
use torpc.Breaker.{
  CircuitBreaker, closed, open_since, half_open, Event, proceed, success, failure, new, with_config,
  can_proceed, record_success, record_failure, run, verdicts, state_summary,
}
use torpc.Breaker.Threshold.{OpensIn, run-OpensIn}
use torpc.Breaker.Recovery.{recovery}

abbrev two : CircuitBreaker
two = record { state = closed 0; failure_threshold = 2; recovery_timeout = 100 }

abbrev opened : CircuitBreaker
opened = record { state = open_since 7; failure_threshold = 2; recovery_timeout = 100 }

abbrev mixed : List Event
mixed = failure 1 ∷ proceed 2 ∷ success ∷ failure 3 ∷ []

-- `test_circuit_breaker_state_transitions`
transitions :
    verdicts two (proceed 0 ∷ failure 1 ∷ proceed 2 ∷ failure 3 ∷ proceed 4 ∷ proceed 150 ∷ [])
    ≡ true ∷ true ∷ false ∷ true ∷ []
unfolding verdicts can_proceed record_success record_failure torpc.Breaker.step
transitions = refl

-- `test_circuit_breaker_opens_exactly_at_threshold`
opens_at_five : (run new (map failure (1 ∷ 2 ∷ 3 ∷ 4 ∷ 5 ∷ 6 ∷ []))).state ≡ open_since 5
unfolding run new torpc.Breaker.step
opens_at_five = refl

names : state_summary (run two mixed) false ≡ "closed"
unfolding state_summary run torpc.Breaker.step
names = refl

run-OpensIn_example : OpensIn two 0 (failure 1 ∷ success ∷ failure 2 ∷ failure 3 ∷ failure 4 ∷ [])
run-OpensIn_example =
    run-OpensIn two 0 (failure 1 ∷ success ∷ failure 2 ∷ failure 3 ∷ failure 4 ∷ []) refl
      (omega arith) (omega arith) (omega arith)

recovery_example :
    (verdicts opened (map proceed (107 ∷ 108 ∷ 109 ∷ [])) ≡ replicate 3 true)
    × ((run opened (map proceed (107 ∷ 108 ∷ 109 ∷ []) ++ success ∷ [])).state ≡ closed 0)
    × ((run opened (map proceed (107 ∷ 108 ∷ 109 ∷ []) ++ failure 200 ∷ [])).state ≡ open_since 200)
recovery_example = recovery opened 7 107 (108 ∷ 109 ∷ []) 200 refl (omega arith)
