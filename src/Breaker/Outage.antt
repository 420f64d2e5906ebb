-- ===== src/Breaker/Outage.antt =====
-- What a breaker lets through while everything fails that it guards.
use mathlib.Core.Path.{subst}
use torpc.Common.{
  ℕ, suc, ◌+◌, ◌-◌, ◌<◌, ◌≤◌, ◌^◌, min, ◌≡◌, refl, sym, ap, ◌∙◌, inl, inr, arith, true, false, List,
  [], ◌∷◌, All, length, ltb, if◌then◌else◌, Bool-cases,
}
use torpc.Breaker.{CircuitBreaker, closed, open_since, can_proceed, record_failure}
use torpc.Breaker.Recovery.{can_proceed-early}

-- Tasks of a client that asks a breaker before it calls, and tells it of a failed call. A task of
-- `Fails` makes a call that fails, where it makes one.
pub record Guarded (S T : Type 0) : Type 1 where
  pub breaker : S → CircuitBreaker
  pub serve : T → S → S
  pub gate_time : T → ℕ
  pub outcome_time : T → ℕ
  pub Fails : T → Type 0
  pub refused :
      (t : T) (s : S)
      → (can_proceed (breaker s) (gate_time t)).1 ≡ false
      → breaker (serve t s) ≡ (can_proceed (breaker s) (gate_time t)).0
  pub failed :
      (t : T) (s : S)
      → Fails t
      → (can_proceed (breaker s) (gate_time t)).1 ≡ true
      → breaker (serve t s)
        ≡ record_failure (can_proceed (breaker s) (gate_time t)).0 (outcome_time t)

can_proceed-closed :
    (b : CircuitBreaker) (now k : ℕ) → b.state ≡ closed k → can_proceed b now ≡ (b, true)
unfolding can_proceed
can_proceed-closed b now k s = ground arith

failure-state :
    (b : CircuitBreaker) (now k : ℕ)
    → b.state ≡ closed k
    → b.failure_threshold < 2 ^ 32
    → k < b.failure_threshold
    → (record_failure b now).state
      ≡ (if ltb (suc k) b.failure_threshold then closed (suc k) else open_since now)
unfolding record_failure
failure-state b now k s w h = ground arith

failure-settings :
    (b : CircuitBreaker) (now : ℕ)
    → ((record_failure b now).failure_threshold ≡ b.failure_threshold)
      × ((record_failure b now).recovery_timeout ≡ b.recovery_timeout)
unfolding record_failure
failure-settings b now = ground arith

module _ {S T : Type 0} (G : Guarded S T) where
  open G use {breaker, serve, gate_time, outcome_time, Fails, refused, failed}

  -- Tasks that are served one after the other.
  unfoldable pub serve_all : List T → S → S
  serve_all [] s = s
  serve_all (t ∷ ts) s = serve_all ts (serve t s)

  -- How many of these the breaker lets through.
  unfoldable pub let_through : List T → S → ℕ
  let_through [] s = 0
  let_through (t ∷ ts) s =
      let rest = let_through ts (serve t s) in
      if (can_proceed (breaker s) (gate_time t)).1 then suc rest else rest

  -- The task fails, and the readings of its clock lie in the span of `width` from `from`.
  abbrev pub MeetsOutage : ℕ → ℕ → T → Type 0
  MeetsOutage from width t = Fails t × (from ≤ outcome_time t) × (gate_time t < from + width)

  let_through-open :
      (from opened_at : ℕ) (ts : List T) (s : S)
      → (breaker s).state ≡ open_since opened_at
      → from ≤ opened_at
      → 0 < (breaker s).recovery_timeout
      → All (MeetsOutage from (breaker s).recovery_timeout) ts
      → let_through ts s ≡ 0
  unfolding let_through
  let_through-open from at [] s o p r h = refl
  let_through-open from at (t ∷ ts) s o p r ((_, _, begun), h) =
      let early = can_proceed-early (breaker s) at o (gate_time t) (omega arith) r in
      let same = refused t s (ap (λ c. c.1) early) ∙ ap (λ c. c.0) early in
      let rest =
        let_through-open from at ts (serve t s) (ap (λ b. b.state) same ∙ o) p
          (subst (λ b. 0 < b.recovery_timeout) (sym same) r)
          (subst (λ b. All (MeetsOutage from b.recovery_timeout) ts) (sym same) h) in
      ground (arith, early, rest)

  -- While every call fails, a closed breaker lets through exactly as many tasks as it has failures
  -- left, or all of them, where they are fewer.
  pub let_through-closed :
      (from k : ℕ) (ts : List T) (s : S)
      → (breaker s).state ≡ closed k
      → k < (breaker s).failure_threshold
      → (breaker s).failure_threshold < 2 ^ 32
      → 0 < (breaker s).recovery_timeout
      → All (MeetsOutage from (breaker s).recovery_timeout) ts
      → let_through ts s ≡ min (length ts) ((breaker s).failure_threshold - k)
  unfolding let_through
  let_through-closed from k [] s c low w r h = omega arith
  let_through-closed from k (t ∷ ts) s c low w r ((down, ended, begun), h) =
      let b = breaker s in
      let passes = can_proceed-closed b (gate_time t) k c in
      let told =
        failed t s down (ap (λ v. v.1) passes)
        ∙ ap (λ v. record_failure v.0 (outcome_time t)) passes in
      let (same_threshold, same_timeout) = failure-settings b (outcome_time t) in
      let state = ap (λ c. c.state) told ∙ failure-state b (outcome_time t) k c w low in
      let threshold = ap (λ c. c.failure_threshold) told ∙ same_threshold in
      let timeout = ap (λ c. c.recovery_timeout) told ∙ same_timeout in
      let still = subst (λ r. All (MeetsOutage from r) ts) (sym timeout) h in
      let through = ap (λ v. v.1) passes in
      elim (Bool-cases (ltb (suc k) b.failure_threshold)) [
        | inl more ↦
            let rest =
              let_through-closed from (suc k) ts (serve t s) (state ∙ (rw more)) (ground arith)
                (omega arith) (omega arith) still in
            ground (arith, through, rest, threshold)
        | inr last ↦
            let full : b.failure_threshold ≤ suc k = ground arith in
            let rest =
              let_through-open from (outcome_time t) ts (serve t s) (state ∙ (rw last)) ended
                (omega arith) still in
            ground (arith, through, rest)
      ]
