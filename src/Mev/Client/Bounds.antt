-- ===== src/Mev/Client/Bounds.antt =====
-- How often a submission calls the relay, whatever the relay answers.
use torpc.Common.{
  ℕ, zero, suc, ◌+◌, ◌-◌, ◌≤◌, inl, inr, arith, String, [], ◌∷◌, Option, none, some, Result, length,
  length-append, Result-split, and_then, Option-cases,
}
use torpc.External.{External}
use torpc.Rpc.{JsonRpcRequest}
use torpc.Errors.{ProxyError}
use torpc.Breaker.{can_proceed}
use torpc.Mev.Types.{Bundle, new_request}
use torpc.Mev.Retry.{calculate_delay}
use torpc.Mev.Client.{
  MevRelayClient, RelayCall, Relay, RelayEnv, send_bundle_attempt, pause, retry_loop, send_bundle,
  create_bundle_from_tx, first_param, handle_send_raw_transaction, handle_send_bundle,
}

module _ (X : External) (env : RelayEnv) (client : MevRelayClient) where
  open X use {Value}

  -- At most so many calls more, and as many sleeps.
  abbrev pub Within : ℕ → Relay → Relay → Type 0
  Within n r r' = (length r'.calls ≤ n + length r.calls) × (length r'.sleeps ≤ n + length r.sleeps)

  attempt-Within :
      (attempt : ℕ) (body : String) (r : Relay)
      → Within 1 r (send_bundle_attempt X env client attempt body (pause X env client attempt r)).1
  unfolding send_bundle_attempt
  attempt-Within attempt body r = elim (Result-split (env.sign body)) [
    | inl (e, unsigned) ↦ ground (
      arith,
      length-append r.sleeps
          (calculate_delay client.retry_policy (attempt - 1) (env.draw attempt) ∷ []),
    )
    | inr (signature, signed) ↦
        let call : RelayCall = record {
          url = client.config.relay_url;
          signature = signature;
          body = body;
        } in
        ground (
          arith,
          length-append r.sleeps
              (calculate_delay client.retry_policy (attempt - 1) (env.draw attempt) ∷ []),
          length-append (pause X env client attempt r).calls (call ∷ []),
        )
  ]

  loop-Within :
      (left attempt : ℕ) (last : Option ProxyError) (body : String) (r : Relay)
      → Within left r (retry_loop X env client left attempt last body r).1
  unfolding retry_loop
  loop-Within zero attempt last body r = ground arith
  loop-Within (suc left) attempt last body r =
      let tried = send_bundle_attempt X env client attempt body (pause X env client attempt r) in
      let once = attempt-Within attempt body r in
      elim (Result-split tried.0) [
        | inl (e, failed) ↦ ground (arith, loop-Within left (attempt + 1) (some e) body tried.1)
        | inr (hash, good) ↦ ground arith
      ]

  -- A submission calls the relay, and sleeps, at most as often as the policy allows attempts.
  pub send_bundle-Within :
      (bundle : Bundle) (r : Relay)
      → Within client.retry_policy.max_attempts r (send_bundle X env client bundle r).1
  unfolding send_bundle
  send_bundle-Within bundle r = elim (Result-split (env.encode (new_request bundle 1))) [
    | inl (e, bad) ↦ ground arith
    | inr (body, good) ↦ ground (
      arith,
      loop-Within client.retry_policy.max_attempts 0 none body
          (record r { circuit_breaker = (can_proceed r.circuit_breaker env.gate_time).0 }),
    )
  ]

  pub raw_transaction-Within :
      (request : JsonRpcRequest Value) (block : ℕ) (r : Relay)
      → Within client.retry_policy.max_attempts r
          (handle_send_raw_transaction X env client request block r).1
  unfolding handle_send_raw_transaction
  raw_transaction-Within request block r =
      elim (Option-cases (and_then (first_param X env client request) X.as_str)) [
        | inl missing ↦ ground arith
        | inr (raw_tx, given) ↦
            ground (arith, send_bundle-Within (create_bundle_from_tx client raw_tx block) r)
      ]

  pub bundle-Within :
      (decode : Value → Result String Bundle) (request : JsonRpcRequest Value) (r : Relay)
      → Within client.retry_policy.max_attempts r
          (handle_send_bundle X env client decode request r).1
  unfolding handle_send_bundle
  bundle-Within decode request r = elim (Option-cases (first_param X env client request)) [
    | inl missing ↦ ground arith
    | inr (v, given) ↦ elim (Result-split (decode v)) [
      | inl (e, bad) ↦ ground arith
      | inr (bundle, good) ↦ ground (arith, send_bundle-Within bundle r)
    ]
  ]
