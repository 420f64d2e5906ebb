-- ===== src/Proxy.antt =====
-- The JSON-RPC proxy, src/proxy.rs: its state, the two handlers, and the call of the upstream node.
--
-- A handler is a function from the state to a result and the next state. The state is the shared
-- `ProxyState` and a log, `wire`, of the requests that were sent to the node, which the program
-- does not keep; the properties are stated about it. What the handler meets on its way is an
-- `Env`: the reading of the clock at each place that takes one, the node's answer to each request,
-- and what other tasks do to the shared state while this one waits: for the breaker's lock
-- (`before_gate`) and for the node (`others`). The text of a `reqwest` error is part of the answer. Log lines are not modelled.
pub mod Effects
pub mod Gate
pub mod Wire
pub mod Rejects
pub mod Privacy
pub mod Outage
pub mod Timeout
pub mod Accounts
use Prim.Native.String
use torpc.Common.{ℕ, ◌*◌, String, neg, Bool, true, false, ◌||◌, not, List, [], ◌∷◌, ◌++◌, none}
use torpc.Common.{Result, ok, err, map_err, str_eq, if◌then◌else◌, decimal}
use torpc.External.{External}
use torpc.Rpc
use torpc.Rpc.{JsonRpcRequest, JsonRpcResponse, validate}
use torpc.Errors.{
  ProxyError, ProxyResult, invalid_request, method_not_allowed, rate_limit_exceeded, upstream_error,
}
use torpc.Breaker
use torpc.Breaker.{CircuitBreaker, second, can_proceed, record_success, record_failure}
use torpc.Limiter
use torpc.Limiter.{RateLimiter, check_rate_limit}
use torpc.Security
use torpc.Security.{
  SecurityMetrics, increment_rate_limit_hits, increment_invalid_methods, increment_blocked_requests,
}
use torpc.Whitelist.{contains, is_method_allowed}
use torpc.Proxy.Effects.{M, ◌>>=◌, ◌>>◌, lift, change}

pub record ProxyState : Type 0 where
  pub geth_url : String
  pub flashbots_url : String
  pub metrics : SecurityMetrics
  pub start_time : ℕ
  pub geth_circuit : CircuitBreaker
  pub write_method_limiter : RateLimiter

abbrev pub write_methods : List String
write_methods = "eth_sendRawTransaction" ∷ "eth_sendBundle" ∷ []

abbrev pub write_method_default_requests : ℕ
write_method_default_requests = 10

abbrev pub write_method_default_window_secs : ℕ
write_method_default_window_secs = 60

-- `ProxyState::new`; `client` is what building the HTTP client gave, with the error's text.
unfoldable pub new : Result String (Unit {0}) → String → String → ℕ → Result ProxyError ProxyState
new client geth_url flashbots_url now = elim client [
  | err e ↦ err (ProxyError.internal_error (String.◌++◌ "HTTP client init failed: " e))
  | ok u ↦ ok (record {
    geth_url = geth_url;
    flashbots_url = flashbots_url;
    metrics = Security.new;
    start_time = now;
    geth_circuit = Breaker.new;
    write_method_limiter = Limiter.new (record {
      max_requests = write_method_default_requests;
      window_duration = write_method_default_window_secs * second;
    });
  })
]

unfoldable pub new_with_write_limit :
    Result String (Unit {0}) → String → String → ℕ → ℕ → ℕ → Result ProxyError ProxyState
unfolding new
new_with_write_limit client geth_url flashbots_url max_requests window now =
    elim (new client geth_url flashbots_url now) [
      | err e ↦ err e
      | ok state ↦ ok (record state {
        write_method_limiter =
            Limiter.new (record { max_requests = max_requests; window_duration = window });
      })
    ]

-- The node's answer to a request: no answer, with the client's error; or a status, with what
-- reading the body as text and what decoding it would give.
pub data Exchange (Value : Type 0) : Type 0 where
  unreachable : String → Exchange Value
  replied : ℕ → Result String String → Result String (JsonRpcResponse Value) → Exchange Value

-- A request as it was sent: to which address, and what.
pub record Sent (Value : Type 0) : Type 0 where
  pub url : String
  pub request : JsonRpcRequest Value

pub record Node (Value : Type 0) : Type 0 where
  pub base : ProxyState
  pub wire : List (Sent Value)

pub record Env (Value : Type 0) : Type 0 where
  pub limit_time : ℕ
  pub gate_time : ℕ
  pub outcome_time : ℕ
  pub geth : Sent Value → Exchange Value
  pub before_gate : ProxyState → ProxyState
  pub others : ProxyState → ProxyState

-- `check_write_method_rate_limit` at the instant `now`.
unfoldable pub check_write_method_rate_limit :
    ProxyState → String → ℕ → ProxyResult (Unit {0}) × ProxyState
check_write_method_rate_limit state method now =
    if not (contains method write_methods)
    then (ok tt, state)
    else let (limiter, allowed) = check_rate_limit state.write_method_limiter method now in
      let charged = record state { write_method_limiter = limiter } in
      if allowed then (ok tt, charged) else (
        err rate_limit_exceeded,
        record charged { metrics = increment_rate_limit_hits state.metrics },
      )

-- The refusal of a method that is not on the list.
unfoldable pub check_method : ProxyState → String → ProxyResult (Unit {0}) × ProxyState
check_method state method =
    if not (is_method_allowed method)
    then (
      err (method_not_allowed method),
      record state {
        metrics = increment_blocked_requests (increment_invalid_methods state.metrics);
      },
    )
    else (ok tt, state)

module _ (X : External) where
  open X use {Value, is_success, is_server_error}

  -- What is done with the node's answer, at the instant `now`.
  unfoldable pub settle :
      Exchange Value → ProxyState → ℕ → ProxyResult (JsonRpcResponse Value) × ProxyState
  settle (unreachable e) state now = (
    err (upstream_error "upstream unavailable"),
    record state { geth_circuit = record_failure state.geth_circuit now },
  )
  settle (replied status text json) state now =
      if not (is_success status)
      then (
        err (upstream_error (String.◌++◌ "upstream returned status " (decimal status))),
        if is_server_error status
            then record state { geth_circuit = record_failure state.geth_circuit now }
            else state,
      )
      else elim json [
        | ok response ↦
            (ok response, record state { geth_circuit = record_success state.geth_circuit })
        | err e ↦ (
          err (upstream_error (String.◌++◌ "Failed to parse response: " e)),
          record state { geth_circuit = record_failure state.geth_circuit now },
        )
      ]

  unfoldable pub proxy_to_geth :
      Env Value → JsonRpcRequest Value → M (Node Value) (JsonRpcResponse Value)
  proxy_to_geth env request n =
      let here = env.before_gate n.base in
      let (breaker, allowed) = can_proceed here.geth_circuit env.gate_time in
      let gated = record here { geth_circuit = breaker } in
      let sent : Sent Value = record { url = here.geth_url; request = request } in
      let (result, base) = settle (env.geth sent) (env.others gated) env.outcome_time in
      if not allowed
      then (
        err (
            upstream_error "Upstream Ethereum node temporarily unavailable (circuit breaker open)"),
        record n { base = gated },
      )
      else (result, record { base = base; wire = n.wire ++ sent ∷ [] })

  -- The checks that both handlers begin with.
  unfoldable pub admit : Env Value → JsonRpcRequest Value → M (Node Value) (Unit {0})
  admit env request = do
    lift (map_err invalid_request (validate request))
    change (λ n. n.base) (λ n b. record n { base = b }) (λ b. check_method b request.method)
    change (λ n. n.base) (λ n b. record n { base = b })
        (λ b. check_write_method_rate_limit b request.method env.limit_time)

  unfoldable pub handle_rpc :
      Env Value → JsonRpcRequest Value → M (Node Value) (JsonRpcResponse Value)
  handle_rpc env request = do admit env request; proxy_to_geth env request

  unfoldable pub proxy_to_flashbots :
      Env Value → JsonRpcRequest Value → M (Node Value) (JsonRpcResponse Value)
  proxy_to_flashbots env request =
      if str_eq request.method "eth_sendBundle"
      then lift (
          ok (
            Rpc.error request.id (neg 32004)
              "MEV protection not configured: set FLASHBOTS_SIGNING_KEY to enable bundle submission"
              none))
      else proxy_to_geth env request

  unfoldable pub handle_flashbots :
      Env Value → JsonRpcRequest Value → M (Node Value) (JsonRpcResponse Value)
  handle_flashbots env request = do
    admit env request
    if str_eq request.method "eth_sendRawTransaction" || str_eq request.method "eth_sendBundle"
        then proxy_to_flashbots env request
        else proxy_to_geth env request
