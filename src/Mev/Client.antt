-- ===== src/Mev/Client.antt =====
-- The relay client, src/mev/client.rs.
--
-- The state of a client that its calls change is its circuit breaker; beside it stand two logs that
-- the program does not keep, of the calls that were sent to the relay and of the delays slept.
-- A `RelayEnv` is what a submission meets: `serde_json`'s encoding of the request, the signature
-- of the authenticator (src/mev/auth.rs, over the packages `secp256k1` and `sha3`), the relay's
-- answer to each attempt, the draw of the random generator for each delay, the clock, and what
-- other tasks do to the breaker while this one waits (`others`).
pub mod Attempts
pub mod Submission
pub mod Refused
pub mod Bounds
pub mod Uncounted
pub mod Outage
pub mod Clock
use Prim.Native.String
use torpc.Common.{
  and_then, or_else, ℕ, zero, suc, ◌+◌, ◌-◌, String, Bool, not, List, [], ◌∷◌, ◌++◌, Option, none,
  some,
}
use torpc.Common.{
  Result, ok, err, map_err, ok_or, unwrap_or, ltb, ◌==◌, if◌then◌else◌, u64, hex, head?,
}
use torpc.External.{External}
use torpc.Rpc.{JsonRpcRequest}
use torpc.Errors.{
  ProxyError, ProxyResult, invalid_request, upstream_error, internal_error, to_string,
}
use torpc.Breaker
use torpc.Breaker.{state_summary, CircuitBreaker, can_proceed, record_success, record_failure}
use torpc.Mev.Types.{Bundle, SendBundleRequest, MevConfig, new_request}
use torpc.Mev.Retry.{RetryPolicy, default_policy, calculate_delay, should_retry}

pub record MevRelayClient : Type 0 where
  pub config : MevConfig
  pub retry_policy : RetryPolicy

pub record RelayCall : Type 0 where
  pub url : String
  pub signature : String
  pub body : String

-- The relay's answer: none, with the client's error; or a status and what reading the body gave.
pub data RelayReply : Type 0 where
  no_answer : String → RelayReply
  answered : ℕ → Result String String → RelayReply

pub record Relay : Type 0 where
  pub circuit_breaker : CircuitBreaker
  pub calls : List RelayCall
  pub sleeps : List ℕ

pub record RelayEnv : Type 0 where
  pub encode : SendBundleRequest → Result String String
  pub sign : String → Result String String
  pub reply : ℕ → RelayCall → RelayReply
  pub draw : ℕ → ℕ
  pub gate_time : ℕ
  pub outcome_time : ℕ
  pub others : CircuitBreaker → CircuitBreaker

-- `MevRelayClient::new`: `http` and `key` are what building the HTTP client and reading the signing
-- key gave. The breaker of the new client is the second part.
unfoldable pub new :
    Result String (Unit {0})
    → Result String (Unit {0})
    → MevConfig
    → ProxyResult (MevRelayClient × CircuitBreaker)
new http key config = elim http [
  | err e ↦ err (internal_error (String.◌++◌ "Failed to create HTTP client: " e))
  | ok u ↦ elim key [
    | err e ↦ err (internal_error (String.◌++◌ "Invalid signing key: " e))
    | ok v ↦ ok (record { config = config; retry_policy = default_policy }, Breaker.new)
  ]
]

-- The configuration's client, as `create_mev_client` shares it.
unfoldable pub create_mev_client :
    Result String (Unit {0})
    → Result String (Unit {0})
    → MevConfig
    → ProxyResult (MevRelayClient × CircuitBreaker)
create_mev_client = new

-- `contended` is true where the breaker's lock is taken.
unfoldable pub circuit_state_summary : Relay → Bool → String
circuit_state_summary r contended = state_summary r.circuit_breaker contended

unfoldable pub create_bundle_from_tx : MevRelayClient → String → ℕ → Bundle
create_bundle_from_tx client raw_tx current_block =
    let target_block = u64 (current_block + client.config.blocks_ahead) in
    record {
      txs = raw_tx ∷ [];
      block_number = String.◌++◌ "0x" (hex target_block);
      min_timestamp = none;
      max_timestamp = none;
    }

-- The end of a submission: the breaker is told, as other tasks have left it.
abbrev pub report_success : RelayEnv → Relay → Relay
report_success env r = record r { circuit_breaker = record_success (env.others r.circuit_breaker) }

abbrev pub report_failure : RelayEnv → Relay → Relay
report_failure env r = record r {
  circuit_breaker = record_failure (env.others r.circuit_breaker) env.outcome_time;
}

module _ (X : External) where
  open X use {Value, as_str, as_array, get, from_str, is_success, status_text}

  unfoldable pub parse_bundle_response : String → ProxyResult String
  parse_bundle_response response_text = elim (from_str response_text) [
    | err e ↦ err (upstream_error (String.◌++◌ "Invalid JSON response from relay: " e))
    | ok response ↦ elim (get "error" response) [
      | some error ↦ err (
          upstream_error (
            String.◌++◌ "Relay error: "
              (or_else (and_then (get "message" error) as_str) "Unknown error")))
      | none ↦
          ok_or (and_then (and_then (get "result" response) (get "bundleHash")) as_str)
            (upstream_error "Missing bundleHash in response")
    ]
  ]

  -- The message of a relay's error body.
  abbrev pub body_message : String → Option String
  body_message body = elim (from_str body) [
    | err e ↦ none
    | ok json ↦ and_then (and_then (get "error" json) (get "message")) as_str
  ]

  unfoldable pub map_relay_error : ℕ → String → ProxyError
  map_relay_error status body =
      if status == 401
      then internal_error "Flashbots authentication failed - check signing key"
      else if status == 400
      then elim (body_message body) [
        | some error_msg ↦ invalid_request (String.◌++◌ "Bundle validation failed: " error_msg)
        | none ↦ invalid_request "Invalid bundle format"
      ]
      else if status == 429
      then upstream_error "MEV relay rate limit exceeded"
      else upstream_error (
          String.◌++◌ "MEV relay error " (String.◌++◌ (status_text status) (String.◌++◌ ": " body)))

  unfoldable pub read_reply : RelayReply → ProxyResult String
  read_reply (no_answer e) = err (upstream_error (String.◌++◌ "Network error: " e))
  read_reply (answered status text) =
      let response_text = unwrap_or text "Failed to read response body" in
      if is_success status
      then parse_bundle_response response_text
      else err (map_relay_error status response_text)

  module _ (env : RelayEnv) (client : MevRelayClient) where
    unfoldable pub send_bundle_attempt : ℕ → String → Relay → ProxyResult String × Relay
    send_bundle_attempt attempt body r = elim (env.sign body) [
      | err e ↦ (err (internal_error (String.◌++◌ "Failed to sign request: " e)), r)
      | ok signature ↦
          let call : RelayCall = record {
            url = client.config.relay_url;
            signature = signature;
            body = body;
          } in
          (read_reply (env.reply attempt call), record r { calls = r.calls ++ call ∷ [] })
    ]

    -- The sleep before every attempt but the first.
    abbrev pub pause : ℕ → Relay → Relay
    pause attempt r =
        if ltb 0 attempt
        then record r {
          sleeps =
              r.sleeps ++ calculate_delay client.retry_policy (attempt - 1) (env.draw attempt) ∷ [];
        }
        else r

    -- The loop over the attempts: so many are left, this is the next one, and the last error.
    unfoldable pub retry_loop :
        ℕ → ℕ → Option ProxyError → String → Relay → ProxyResult String × Relay
    retry_loop zero attempt last_error body r = (
      err (or_else last_error (upstream_error "Bundle submission failed after all retries")),
      report_failure env r,
    )
    retry_loop (suc left) attempt last_error body r =
        let tried = send_bundle_attempt attempt body (pause attempt r) in
        elim tried.0 [
          | ok bundle_hash ↦ (ok bundle_hash, report_success env tried.1)
          | err e ↦
              let again = retry_loop left (attempt + 1) (some e) body tried.1 in
              if not (should_retry (to_string e))
              then (err e, report_failure env tried.1)
              else again
        ]

    unfoldable pub send_bundle : Bundle → Relay → ProxyResult String × Relay
    send_bundle bundle r =
        let (breaker, allowed) = can_proceed r.circuit_breaker env.gate_time in
        let gated = record r { circuit_breaker = breaker } in
        if not allowed
        then (err (upstream_error "MEV relay circuit breaker is open - too many failures"), gated)
        else elim (env.encode (new_request bundle 1)) [
          | err e ↦ (err (internal_error (String.◌++◌ "Failed to serialize bundle: " e)), gated)
          | ok body ↦ retry_loop client.retry_policy.max_attempts 0 none body gated
        ]

    -- The first of the request's parameters.
    abbrev pub first_param : JsonRpcRequest Value → Option Value
    first_param request = and_then (and_then request.params as_array) head?

    unfoldable pub handle_send_raw_transaction :
        JsonRpcRequest Value → ℕ → Relay → ProxyResult String × Relay
    handle_send_raw_transaction request current_block r =
        elim (and_then (first_param request) as_str) [
          | none ↦ (err (invalid_request "Missing transaction data in params"), r)
          | some raw_tx ↦ send_bundle (create_bundle_from_tx client raw_tx current_block) r
        ]

    -- `decode` is `serde_json::from_value::<Bundle>`, with the error's text.
    unfoldable pub handle_send_bundle :
        (Value → Result String Bundle) → JsonRpcRequest Value → Relay → ProxyResult String × Relay
    handle_send_bundle decode request r = elim (first_param request) [
      | none ↦ (err (invalid_request "Missing bundle in params"), r)
      | some bundle_json ↦ elim (decode bundle_json) [
        | err e ↦ (err (invalid_request (String.◌++◌ "Invalid bundle format: " e)), r)
        | ok bundle ↦ send_bundle bundle r
      ]
    ]
