-- ===== src/Breaker/Recovery.antt =====
-- An open breaker: how long it rejects, the probe that reopens the way, and what decides next.
use torpc.Common.{
  Bool, ◌∙◌, ℕ, suc, ◌+◌, ◌<◌, ◌≤◌, ◌≡◌, refl, true, false, List, [], ◌∷◌, ◌++◌, map, arith, All,
  length, replicate, ap,
}
use torpc.Breaker.{closed, open_since, half_open, CircuitBreaker, Event, proceed, success, failure}
use torpc.Breaker.{can_proceed, record_success, record_failure, step, run, verdicts}

-- A clock reading in an event is before `limit`. Outcomes of earlier requests carry no bound.
abbrev pub Before : ℕ → Event → Type 0
Before limit (proceed now) = now < limit
Before limit success = Unit
Before limit (failure now) = Unit

-- How many times a history asks for leave.
abbrev pub requests : List Event → ℕ
requests [] = 0
requests (proceed now ∷ es) = suc (requests es)
requests (success ∷ es) = requests es
requests (failure now ∷ es) = requests es

module _ (b : CircuitBreaker) (opened_at : ℕ) (s : b.state ≡ open_since opened_at) where
  pub can_proceed-early :
      (now : ℕ)
      → now < opened_at + b.recovery_timeout
      → 0 < b.recovery_timeout
      → can_proceed b now ≡ (b, false)
  unfolding can_proceed
  can_proceed-early now h p = ground arith

  can_proceed-late :
      (now : ℕ)
      → opened_at + b.recovery_timeout ≤ now
      → can_proceed b now ≡ (record b { state = half_open }, true)
  unfolding can_proceed
  can_proceed-late now h = ground arith

  record_success-open : record_success b ≡ b
  unfolding record_success
  record_success-open = ground arith

  record_failure-open : (now : ℕ) → record_failure b now ≡ b
  unfolding record_failure
  record_failure-open now = ground arith

-- Until its recovery timeout (not zero) has passed, an open breaker rejects every request, and
-- neither late successes nor further failures change it.
pub open-rejects :
    (b : CircuitBreaker) (opened_at : ℕ) (es : List Event)
    → b.state ≡ open_since opened_at
    → 0 < b.recovery_timeout
    → All (Before (opened_at + b.recovery_timeout)) es
    → (run b es ≡ b) × (verdicts b es ≡ replicate (requests es) false)
unfolding run verdicts step
open-rejects b t [] s p h = (refl, refl)
open-rejects b t (proceed now ∷ es) s p (early, h) =
    let ih = open-rejects b t es s p h in
    let same = can_proceed-early b t s now early p in
    (
      ap (λ (r : CircuitBreaker × Bool). run r.0 es) same ∙ ih.0,
      ap (λ (r : CircuitBreaker × Bool). r.1 ∷ verdicts r.0 es) same ∙ ap (λ vs. false ∷ vs) ih.1,
    )
open-rejects b t (success ∷ es) s p (_, h) =
    rw (record_success-open b t s) (open-rejects b t es s p h)
open-rejects b t (failure now ∷ es) s p (_, h) =
    rw (record_failure-open b t s now) (open-rejects b t es s p h)

probes :
    (b : CircuitBreaker) (ts : List ℕ) (rest : List Event)
    → let half = record b { state = half_open } in
      (run half (map proceed ts ++ rest) ≡ run half rest)
      × (verdicts half (map proceed ts) ≡ replicate (length ts) true)
unfolding run verdicts step can_proceed
probes b [] rest = (refl, refl)
probes b (t ∷ ts) rest = let ih = probes b ts rest in (ih.0, ap (λ vs. true ∷ vs) ih.1)

-- Once the recovery timeout has passed, the first request is let through, and so is every further
-- request, however many, until an outcome is recorded; the first outcome closes the breaker with
-- its counter at zero, or opens it again at the instant of the failure.
pub recovery :
    (b : CircuitBreaker) (opened_at now : ℕ) (ts : List ℕ) (failed_at : ℕ)
    → b.state ≡ open_since opened_at
    → opened_at + b.recovery_timeout ≤ now
    → (verdicts b (map proceed (now ∷ ts)) ≡ replicate (suc (length ts)) true)
      × ((run b (map proceed (now ∷ ts) ++ success ∷ [])).state ≡ closed 0)
      × ((run b (map proceed (now ∷ ts) ++ failure failed_at ∷ [])).state ≡ open_since failed_at)
unfolding run verdicts step record_success record_failure
recovery b t now ts f s h =
    let late = can_proceed-late b t s now h in
    (
      ap (λ (r : CircuitBreaker × Bool). r.1 ∷ verdicts r.0 (map proceed ts)) late
          ∙ ap (λ vs. true ∷ vs) (probes b ts []).1,
      ap (λ (r : CircuitBreaker × Bool). (run r.0 (map proceed ts ++ success ∷ [])).state) late
          ∙ ap (λ c. c.state) (probes b ts (success ∷ [])).0,
      ap (λ (r : CircuitBreaker × Bool). (run r.0 (map proceed ts ++ failure f ∷ [])).state) late
          ∙ ap (λ c. c.state) (probes b ts (failure f ∷ [])).0,
    )
