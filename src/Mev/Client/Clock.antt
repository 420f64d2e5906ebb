-- ===== src/Mev/Client/Clock.antt =====
-- A submission to the relay against the clock of `json_rpc_timeout_middleware` of src/security.rs:
-- the loop of `send_bundle` of src/mev/client.rs with the time that its sleeps and calls take.
--
-- The middleware drops a request that is not done at `deadline`, where it waits: asleep between two
-- attempts, or for the relay's answer. What ends at the deadline itself is done, since tokio looks
-- at the request before its clock. A sleep ends when its timer fires, at a whole millisecond. Nothing else that a submission does takes time here.
pub mod Deadline
use torpc.Common.{
  Result, and_then, ℕ, zero, suc, ◌+◌, ◌-◌, String, [], ◌∷◌, Option, none, some, Result, ok, err,
  ltb, not, if◌then◌else◌, or_else,
}
use torpc.External.{External}
use torpc.Errors.{
  ProxyError, ProxyResult, upstream_error, internal_error, invalid_request, to_string,
}
use Prim.Native.String
use torpc.Rpc.{JsonRpcRequest}
use torpc.Breaker.{can_proceed}
use torpc.Proxy.Timeout.{fires}
use torpc.Mev.Types.{Bundle, new_request}
use torpc.Mev.Retry.{calculate_delay, should_retry}
use torpc.Mev.Client.{
  MevRelayClient, RelayCall, Relay, RelayEnv, report_success, report_failure, send_bundle_attempt,
  pause, first_param, create_bundle_from_tx,
}

-- How long an attempt waits for the relay, and when the middleware drops the request.
pub record Clock : Type 0 where
  pub takes : ℕ → RelayCall → ℕ
  pub deadline : ℕ

module _ (X : External) (env : RelayEnv) (client : MevRelayClient) (clock : Clock) where
  open X use {Value, as_str}

  -- When the sleep before an attempt ends, and when the attempt does; a request that cannot be
  -- signed is not sent.
  abbrev pub wakes : ℕ → ℕ → ℕ
  wakes attempt now =
      if ltb 0 attempt
      then fires (now + calculate_delay client.retry_policy (attempt - 1) (env.draw attempt))
      else now

  abbrev pub finishes : ℕ → String → ℕ → ℕ
  finishes attempt body now = elim (env.sign body) [
    | err e ↦ wakes attempt now
    | ok signature ↦
        wakes attempt now
        + clock.takes attempt
            (record { url = client.config.relay_url; signature = signature; body = body })
  ]

  -- The loop from an instant on; none where the request is dropped.
  unfoldable pub retry_in_time :
      ℕ → ℕ → Option ProxyError → String → ℕ → Relay → Option (ProxyResult String) × Relay
  retry_in_time zero attempt last_error body now r = (
    some (err (or_else last_error (upstream_error "Bundle submission failed after all retries"))),
    report_failure env r,
  )
  retry_in_time (suc left) attempt last_error body now r =
      let paused = pause X env client attempt r in
      let tried = send_bundle_attempt X env client attempt body paused in
      let end = finishes attempt body now in
      elim tried.0 as (λ _. Option (ProxyResult String) × Relay) [
        | ok bundle_hash ↦
            if ltb clock.deadline (wakes attempt now)
            then (none, paused)
            else if ltb clock.deadline end
            then (none, tried.1)
            else (some (ok bundle_hash), report_success env tried.1)
        | err e ↦
            let again = retry_in_time left (attempt + 1) (some e) body end tried.1 in
            if ltb clock.deadline (wakes attempt now)
            then (none, paused)
            else if ltb clock.deadline end
            then (none, tried.1)
            else if not (should_retry (to_string e))
            then (some (err e), report_failure env tried.1)
            else again
      ]

  -- `send_bundle`, from the instant at which it asks the breaker.
  unfoldable pub send_bundle_in_time : Bundle → Relay → Option (ProxyResult String) × Relay
  send_bundle_in_time bundle r =
      let (breaker, allowed) = can_proceed r.circuit_breaker env.gate_time in
      let gated = record r { circuit_breaker = breaker } in
      if not allowed
      then (
        some (err (upstream_error "MEV relay circuit breaker is open - too many failures")),
        gated,
      )
      else elim (env.encode (new_request bundle 1)) as (λ _. Option (ProxyResult String) × Relay) [
        | err e ↦
            (some (err (internal_error (String.◌++◌ "Failed to serialize bundle: " e))), gated)
        | ok body ↦ retry_in_time client.retry_policy.max_attempts 0 none body env.gate_time gated
      ]

  -- The client's part of a request, as it stands before the submission.
  unfoldable pub raw_transaction_in_time :
      JsonRpcRequest Value → ℕ → Relay → Option (ProxyResult String) × Relay
  raw_transaction_in_time request current_block r =
      elim (and_then (first_param X env client request) as_str)
        as (λ _. Option (ProxyResult String) × Relay) [
          | none ↦ (some (err (invalid_request "Missing transaction data in params")), r)
          | some raw_tx ↦ send_bundle_in_time (create_bundle_from_tx client raw_tx current_block) r
        ]

  unfoldable pub bundle_in_time :
      (Value → Result String Bundle)
      → JsonRpcRequest Value
      → Relay
      → Option (ProxyResult String) × Relay
  bundle_in_time decode request r =
      elim (first_param X env client request) as (λ _. Option (ProxyResult String) × Relay) [
        | none ↦ (some (err (invalid_request "Missing bundle in params")), r)
        | some bundle_json ↦
            elim (decode bundle_json) as (λ _. Option (ProxyResult String) × Relay) [
              | err e ↦ (some (err (invalid_request (String.◌++◌ "Invalid bundle format: " e))), r)
              | ok bundle ↦ send_bundle_in_time bundle r
            ]
      ]
