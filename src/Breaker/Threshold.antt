-- ===== src/Breaker/Threshold.antt =====
-- When a breaker opens: against the history of outcomes since it was made.
use native.Mathlib.Decide.{dec_lt}
use torpc.Breaker.Invariant.{step-settings}
use torpc.Common.{ap, ℕ, suc, ◌<◌, ◌≤◌, ◌^◌, max, ◌≡◌, refl, List, [], ◌∷◌, ◌++◌, arith}
use torpc.Breaker.{closed, open_since, CircuitBreaker, Event, proceed, success, failure}
use torpc.Breaker.{step, run}

-- How many failures end a history that had k of them before, with no success in between.
abbrev pub streak : ℕ → List Event → ℕ
streak k [] = k
streak k (proceed now ∷ es) = streak k es
streak k (success ∷ es) = streak 0 es
streak k (failure now ∷ es) = streak (suc k) es

-- The longest run of failures with no success in between.
abbrev pub longest : ℕ → List Event → ℕ
longest k [] = k
longest k (proceed now ∷ es) = longest k es
longest k (success ∷ es) = max k (longest 0 es)
longest k (failure now ∷ es) = longest (suc k) es

longest-ge : (k : ℕ) (es : List Event) → k ≤ longest k es
longest-ge k [] = omega arith
longest-ge k (proceed now ∷ es) = longest-ge k es
longest-ge k (success ∷ es) = omega arith
longest-ge k (failure now ∷ es) = omega (arith, longest-ge (suc k) es)

-- What a breaker's operations leave as it was, and what they do to a closed breaker.
module _ (b : CircuitBreaker) (k : ℕ) (s : b.state ≡ closed k) where
  proceed-closed : (now : ℕ) → (step b (proceed now)).state ≡ closed k
  unfolding step
  proceed-closed now = ground arith

  success-closed : (step b success).state ≡ closed 0
  unfolding step
  success-closed = ground arith

  failure-closed :
      (now : ℕ)
      → b.failure_threshold < 2 ^ 32
      → suc k < b.failure_threshold
      → (step b (failure now)).state ≡ closed (suc k)
  unfolding step
  failure-closed now w h = ground arith

  failure-opens :
      (now : ℕ)
      → suc k < 2 ^ 32
      → b.failure_threshold ≤ suc k
      → (step b (failure now)).state ≡ open_since now
  unfolding step
  failure-opens now w h = ground arith

-- As long as no run of failures reaches the threshold, the breaker is closed, and its counter is
-- the number of failures since the last success.
pub run-streak :
    (b : CircuitBreaker) (k : ℕ) (es : List Event)
    → b.state ≡ closed k
    → b.failure_threshold < 2 ^ 32
    → longest k es < b.failure_threshold
    → (run b es).state ≡ closed (streak k es)
unfolding run
run-streak b k [] s w h = s
run-streak b k (proceed now ∷ es) s w h =
    let same = (step-settings b (proceed now)).0 in
    run-streak (step b (proceed now)) k es (proceed-closed b k s now) (omega arith) (omega arith)
run-streak b k (success ∷ es) s w h =
    let same = (step-settings b success).0 in
    run-streak (step b success) 0 es (success-closed b k s) (omega arith) (omega arith)
run-streak b k (failure now ∷ es) s w h =
    let same = (step-settings b (failure now)).0 in
    let more = longest-ge (suc k) es in
    run-streak (step b (failure now)) (suc k) es (failure-closed b k s now w (omega arith))
      (omega arith) (omega arith)

-- A point of a history at which a breaker opens: the failure there, at the instant `at`, is the
-- first to complete a run of `failure_threshold` failures.
pub record OpensIn (b : CircuitBreaker) (k : ℕ) (es : List Event) : Type 0 where
  pub before : List Event
  pub instant : ℕ
  pub after : List Event
  pub splits : es ≡ before ++ failure instant ∷ after
  pub quiet : longest k before < b.failure_threshold
  pub full : suc (streak k before) ≡ b.failure_threshold
  pub opened : (run b (before ++ failure instant ∷ [])).state ≡ open_since instant

OpensIn-cons :
    (b : CircuitBreaker) (k k' : ℕ) (e : Event) (es : List Event)
    → ((l : List Event)
        → longest k' l < b.failure_threshold
        → longest k (e ∷ l) < b.failure_threshold)
    → ((l : List Event) → streak k (e ∷ l) ≡ streak k' l)
    → OpensIn (step b e) k' es
    → OpensIn b k (e ∷ es)
unfolding run
OpensIn-cons b k k' e es low same o = record {
  before = e ∷ o.before;
  instant = o.instant;
  after = o.after;
  splits = ap (λ l. e ∷ l) o.splits;
  quiet = low o.before (omega (arith, o.quiet, step-settings b e));
  full = omega (arith, same o.before, o.full, step-settings b e);
  opened = o.opened;
}

-- Where some run of failures reaches the threshold, the breaker opens at the failure that first
-- completes such a run, and the time of opening is the time of that failure.
pub run-OpensIn :
    (b : CircuitBreaker) (k : ℕ) (es : List Event)
    → b.state ≡ closed k
    → b.failure_threshold < 2 ^ 32
    → k < b.failure_threshold
    → b.failure_threshold ≤ longest k es
    → OpensIn b k es
unfolding run
run-OpensIn b k [] s w low h = absurd (omega arith)
run-OpensIn b k (proceed now ∷ es) s w low h =
    let same = (step-settings b (proceed now)).0 in
    OpensIn-cons b k k (proceed now) es (λ l p. p) (λ l. refl)
      (run-OpensIn (step b (proceed now)) k es (proceed-closed b k s now) (omega arith)
        (omega arith) (omega arith))
run-OpensIn b k (success ∷ es) s w low h =
    let same = (step-settings b success).0 in
    OpensIn-cons b k 0 success es (λ l p. omega arith) (λ l. refl)
      (run-OpensIn (step b success) 0 es (success-closed b k s) (omega arith) (omega arith)
        (omega arith))
run-OpensIn b k (failure now ∷ es) s w low h =
    let same = (step-settings b (failure now)).0 in
    elim (dec_lt (suc k) b.failure_threshold) [
      | yes more ↦
          OpensIn-cons b k (suc k) (failure now) es (λ l p. p) (λ l. refl)
            (run-OpensIn (step b (failure now)) (suc k) es (failure-closed b k s now w more)
              (omega arith) (omega arith) (omega arith))
      | no last ↦ record {
        before = [];
        instant = now;
        after = es;
        splits = refl;
        quiet = low;
        full = omega arith;
        opened = failure-opens b k s now (omega arith) (omega arith);
      }
    ]
