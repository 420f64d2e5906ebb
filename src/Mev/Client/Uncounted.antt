-- ===== src/Mev/Client/Uncounted.antt =====
-- The errors of a submission: none is one that the counters of src/security.rs stand for.
use torpc.Common.{
  ℕ, zero, suc, ◌+◌, refl, inl, inr, arith, String, Option, none, some, Result, err, Result-split,
  and_then, or_else, unwrap_or, Option-cases,
}
use torpc.External.{External}
use torpc.Rpc.{JsonRpcRequest}
use torpc.Errors.{ProxyError, ProxyResult, upstream_error}
use torpc.Breaker.{can_proceed}
use torpc.Proxy.Accounts.{Uncounted}
use torpc.Mev.Types.{Bundle, new_request}
use torpc.Mev.Client.{
  MevRelayClient, Relay, RelayCall, RelayReply, RelayEnv, no_answer, answered,
  parse_bundle_response, map_relay_error, read_reply, send_bundle_attempt, pause, retry_loop,
  send_bundle, create_bundle_from_tx, first_param, body_message, handle_send_raw_transaction,
  handle_send_bundle,
}

module _ (X : External) where
  open X use {Value, from_str, get, as_str}

  parse_bundle_response-Uncounted : (text : String) → Uncounted (parse_bundle_response X text)
  unfolding parse_bundle_response
  parse_bundle_response-Uncounted text = elim (Result-split (from_str text)) [
    | inl (e, bad) ↦ ground arith
    | inr (v, good) ↦ elim (Option-cases (get "error" v)) [
      | inl clean ↦
          elim (Option-cases (and_then (and_then (get "result" v) (get "bundleHash")) as_str)) [
            | inl missing ↦ ground arith
            | inr (hash, found) ↦ ground arith
          ]
      | inr (e, reported) ↦ ground arith
    ]
  ]

  map_relay_error-Uncounted :
      (status : ℕ) (body : String) → Uncounted {A = String} (err (map_relay_error X status body))
  unfolding map_relay_error
  map_relay_error-Uncounted status body = elim (Option-cases (body_message X body)) [
    | inl none_read ↦ ground arith
    | inr (m, read) ↦ ground arith
  ]

  read_reply-Uncounted : (reply : RelayReply) → Uncounted (read_reply X reply)
  unfolding read_reply
  read_reply-Uncounted (no_answer e) = (refl, refl)
  read_reply-Uncounted (answered status text) =
      let body = unwrap_or text "Failed to read response body" in
      ground (arith, parse_bundle_response-Uncounted body, map_relay_error-Uncounted status body)

  module _ (env : RelayEnv) (client : MevRelayClient) where
    attempt-Uncounted :
        (attempt : ℕ) (body : String) (r : Relay)
        → Uncounted (send_bundle_attempt X env client attempt body r).0
    unfolding send_bundle_attempt
    attempt-Uncounted attempt body r = elim (Result-split (env.sign body)) [
      | inl (e, unsigned) ↦ ground arith
      | inr (signature, signed) ↦
          let call : RelayCall = record {
            url = client.config.relay_url;
            signature = signature;
            body = body;
          } in
          ground (arith, read_reply-Uncounted (env.reply attempt call))
    ]

    abbrev last_result : Option ProxyError → ProxyResult String
    last_result last =
        err (or_else last (upstream_error "Bundle submission failed after all retries"))

    loop-Uncounted :
        (left attempt : ℕ) (last : Option ProxyError) (body : String) (r : Relay)
        → Uncounted (last_result last)
        → Uncounted (retry_loop X env client left attempt last body r).0
    unfolding retry_loop
    loop-Uncounted zero attempt last body r h = h
    loop-Uncounted (suc left) attempt last body r h =
        let tried = send_bundle_attempt X env client attempt body (pause X env client attempt r) in
        let once = attempt-Uncounted attempt body (pause X env client attempt r) in
        elim (Result-split tried.0) [
          | inl (e, failed) ↦
              let same : Uncounted {A = String} (err e) = ground (arith, failed, once) in
              ground (arith, same, loop-Uncounted left (attempt + 1) (some e) body tried.1 same)
          | inr (hash, good) ↦ ground arith
        ]

    send_bundle-Uncounted :
        (bundle : Bundle) (r : Relay) → Uncounted (send_bundle X env client bundle r).0
    unfolding send_bundle
    send_bundle-Uncounted bundle r = elim (Result-split (env.encode (new_request bundle 1))) [
      | inl (e, bad) ↦ ground arith
      | inr (body, good) ↦ ground (
        arith,
        loop-Uncounted client.retry_policy.max_attempts 0 none body
            (record r { circuit_breaker = (can_proceed r.circuit_breaker env.gate_time).0 })
            (refl, refl),
      )
    ]

    pub raw_transaction-Uncounted :
        (request : JsonRpcRequest Value) (block : ℕ) (r : Relay)
        → Uncounted (handle_send_raw_transaction X env client request block r).0
    unfolding handle_send_raw_transaction
    raw_transaction-Uncounted request block r =
        elim (Option-cases (and_then (first_param X env client request) as_str)) [
          | inl missing ↦ ground arith
          | inr (raw_tx, given) ↦
              ground (arith, send_bundle-Uncounted (create_bundle_from_tx client raw_tx block) r)
        ]

    pub bundle-Uncounted :
        (decode : Value → Result String Bundle) (request : JsonRpcRequest Value) (r : Relay)
        → Uncounted (handle_send_bundle X env client decode request r).0
    unfolding handle_send_bundle
    bundle-Uncounted decode request r = elim (Option-cases (first_param X env client request)) [
      | inl missing ↦ ground arith
      | inr (v, given) ↦ elim (Result-split (decode v)) [
        | inl (e, bad) ↦ ground arith
        | inr (bundle, good) ↦ ground (arith, send_bundle-Uncounted bundle r)
      ]
    ]
