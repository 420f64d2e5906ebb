-- ===== src/Mev/Client/Outage.antt =====
-- A relay that refuses everything: what the retries and the breaker make of it together.
use torpc.Common.{
  ℕ, zero, suc, ◌+◌, ◌-◌, ◌*◌, ◌<◌, ◌≤◌, ◌^◌, min, ◌≡◌, refl, ap, inl, inr, arith, String, true,
  false, List, [], ◌∷◌, Option, none, some, ok, err, length, All, Result-split, Bool-cases,
}
use Prim.Native.String
use native.Mathlib.Nat.{suc-mul}
use torpc.External.{External}
use torpc.Errors.{ProxyError, internal_error}
use torpc.Breaker.{CircuitBreaker, closed, can_proceed, record_failure}
use torpc.Breaker.Outage.{Guarded, MeetsOutage, serve_all, let_through, let_through-closed}
use torpc.Mev.Types.{Bundle, new_request}
use torpc.Mev.Client.{
  MevRelayClient, RelayCall, Relay, RelayEnv, read_reply, send_bundle_attempt, pause, retry_loop,
  send_bundle,
}
use torpc.Mev.Client.Bounds.{send_bundle-Within}
use torpc.Mev.Client.Submission.{gated}

module _ (X : External) (client : MevRelayClient) where
  -- The relay's answers are errors, whatever is sent and however often.
  abbrev pub Refuses : RelayEnv → Type 0
  Refuses env =
      (k : ℕ) (call : RelayCall) → (e : ProxyError) × (read_reply X (env.reply k call) ≡ err e)

  module _ (env : RelayEnv) (down : Refuses env) where
    attempt-refused :
        (attempt : ℕ) (body : String) (r : Relay)
        → let t = send_bundle_attempt X env client attempt body (pause X env client attempt r) in
          ((e : ProxyError) × (t.0 ≡ err e)) × (t.1.circuit_breaker ≡ r.circuit_breaker)
    unfolding send_bundle_attempt
    attempt-refused attempt body r = elim (Result-split (env.sign body)) [
      | inl (e, unsigned) ↦
          ((internal_error (String.◌++◌ "Failed to sign request: " e), ground arith), ground arith)
      | inr (signature, signed) ↦
          let call : RelayCall = record {
            url = client.config.relay_url;
            signature = signature;
            body = body;
          } in
          let (e, refused) = down attempt call in ((e, ground arith), ground arith)
    ]

    loop-told :
        (left attempt : ℕ) (last : Option ProxyError) (body : String) (r : Relay)
        → (retry_loop X env client left attempt last body r).1.circuit_breaker
          ≡ record_failure (env.others r.circuit_breaker) env.outcome_time
    unfolding retry_loop
    loop-told zero attempt last body r = refl
    loop-told (suc left) attempt last body r =
        let tried = send_bundle_attempt X env client attempt body (pause X env client attempt r) in
        let ((e, failed), same) = attempt-refused attempt body r in
        ground
          (arith, failed, ap env.others same, loop-told left (attempt + 1) (some e) body tried.1)

  -- A submission while no other task touches the breaker.
  pub record Task : Type 0 where
    pub bundle : Bundle
    pub env : RelayEnv
    pub alone : (b : CircuitBreaker) → env.others b ≡ b

  -- The request can be encoded, and the relay refuses it.
  abbrev pub IsRefused : Task → Type 0
  IsRefused t = (body : String) × (t.env.encode (new_request t.bundle 1) ≡ ok body) × Refuses t.env

  pub send_bundle-refused :
      (t : Task) (r : Relay)
      → (can_proceed r.circuit_breaker t.env.gate_time).1 ≡ false
      → (send_bundle X t.env client t.bundle r).1 ≡ gated t.env r
  unfolding send_bundle
  send_bundle-refused t r stop = ground (arith, stop)

  pub send_bundle-failed :
      (t : Task) (r : Relay)
      → IsRefused t
      → (can_proceed r.circuit_breaker t.env.gate_time).1 ≡ true
      → (send_bundle X t.env client t.bundle r).1.circuit_breaker
        ≡ record_failure (can_proceed r.circuit_breaker t.env.gate_time).0 t.env.outcome_time
  unfolding send_bundle
  send_bundle-failed t r (body, encoded, down) go = ground (
    arith,
    go,
    encoded,
    t.alone (can_proceed r.circuit_breaker t.env.gate_time).0,
    loop-told t.env down client.retry_policy.max_attempts 0 none body (gated t.env r),
  )

  -- The relay client as a client of its breaker.
  abbrev pub guarded : Guarded Relay Task
  guarded = record {
    breaker = λ r. r.circuit_breaker;
    serve = λ t r. (send_bundle X t.env client t.bundle r).1;
    gate_time = λ t. t.env.gate_time;
    outcome_time = λ t. t.env.outcome_time;
    Fails = IsRefused;
    refused = λ t r stop. ap (λ r. r.circuit_breaker) (send_bundle-refused t r stop);
    failed = send_bundle-failed;
  }

  serve_all-calls :
      (ts : List Task) (r : Relay)
      → length (serve_all guarded ts r).calls
        ≤ length r.calls + let_through guarded ts r * client.retry_policy.max_attempts
  unfolding serve_all let_through
  serve_all-calls [] r = omega arith
  serve_all-calls (t ∷ ts) r =
      let r' = (send_bundle X t.env client t.bundle r).1 in
      let rest = serve_all-calls ts r' in
      let n = client.retry_policy.max_attempts in
      elim (Bool-cases (can_proceed r.circuit_breaker t.env.gate_time).1) [
        | inl go ↦ ground (
          arith,
          go,
          rest,
          (send_bundle-Within X t.env client t.bundle r).0,
          suc-mul (let_through guarded ts r') n,
        )
        | inr stop ↦
            ground (arith, stop, rest, ap (λ r. length r.calls) (send_bundle-refused t r stop))
      ]

  -- While the relay refuses everything, submissions that follow one another within the recovery
  -- timeout call it at most as often as the policy's attempts for each failure that the closed
  -- breaker has left, since a submission is one failure however often it is tried; where they are
  -- more than these failures, the breaker has the others answered without a call. The requests can be
  -- encoded, and no other task touches the breaker meanwhile.
  pub relay_outage_bounded :
      (from k : ℕ) (ts : List Task) (r : Relay)
      → r.circuit_breaker.state ≡ closed k
      → k < r.circuit_breaker.failure_threshold
      → r.circuit_breaker.failure_threshold < 2 ^ 32
      → 0 < r.circuit_breaker.recovery_timeout
      → All (MeetsOutage guarded from r.circuit_breaker.recovery_timeout) ts
      → let through = min (length ts) (r.circuit_breaker.failure_threshold - k) in
        (let_through guarded ts r ≡ through)
        × (length (serve_all guarded ts r).calls
            ≤ length r.calls + through * client.retry_policy.max_attempts)
  relay_outage_bounded from k ts r s low w p h =
      let through = let_through-closed guarded from k ts r s low w p h in
      (through, rw through at (serve_all-calls ts r))
