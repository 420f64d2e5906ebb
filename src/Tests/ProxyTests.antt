-- ===== src/Tests/ProxyTests.antt =====
-- The handlers on concrete requests.
use torpc.Common.{
  ℕ, ◌+◌, ◌<◌, ◌≡◌, ◌⊎◌, refl, String, [], ◌∷◌, length, none, some, arith, ok, err, decimal,
}
use torpc.Rpc.{JsonRpcRequest, JsonRpcResponse, validate}
use torpc.Errors.{ProxyError, method_not_allowed}
use torpc.Breaker
use torpc.Breaker.{closed}
use torpc.Whitelist.{is_method_allowed}
use torpc.Proxy
use torpc.Proxy.{
  ProxyState, Exchange, unreachable, replied, Sent, Node, Env, admit, handle_rpc, handle_flashbots,
}
use torpc.Proxy.Gate.{Passes}
use torpc.Proxy.Wire.{SentOne, handle_rpc-wire}
use torpc.Proxy.Rejects.{Malformed, Unlisted, OverBudget, refusals}
use torpc.Proxy.Privacy.{Alike, handle_rpc-private}
use torpc.Breaker.Outage.{MeetsOutage, serve_all}
use torpc.Proxy.Outage.{Task, guarded, outage_bounded}
use torpc.Tests.Sample.{Json, a_text, a_number, sample}

abbrev state : ProxyState
state = record {
  geth_url = "http://geth";
  flashbots_url = "http://relay";
  metrics = record {
    blocked_requests_total = 0;
    rate_limit_hits = 0;
    oversized_requests = 0;
    invalid_methods = 0;
    suspicious_patterns = 0;
  };
  start_time = 0;
  geth_circuit = record { state = closed 0; failure_threshold = 5; recovery_timeout = 100 };
  write_method_limiter = record {
    config = record { max_requests = 1; window_duration = 60 };
    requests = [];
  };
}

abbrev pub node : Node Json
node = record { base = state; wire = [] }

abbrev answer : JsonRpcResponse Json
answer = record {
  jsonrpc = "2.0";
  result = some (a_text "0x123");
  error = none;
  id = some (a_number 1);
}

abbrev pub up : Sent Json → Exchange Json
up s = replied 200 (ok "body") (ok answer)

abbrev down : Sent Json → Exchange Json
down s = unreachable "connection refused"

abbrev pub with_geth : (Sent Json → Exchange Json) → Env Json
with_geth geth = record {
  limit_time = 1;
  gate_time = 2;
  outcome_time = 3;
  geth = geth;
  before_gate = λ b. b;
  others = λ b. b;
}

abbrev pub asks : String → JsonRpcRequest Json
asks method = record { jsonrpc = "2.0"; method = method; params = none; id = some (a_number 7) }

-- `test_handle_rpc_valid_request`
valid : (handle_rpc sample (with_geth up) (asks "eth_blockNumber") node).0 ≡ ok answer
unfolding handle_rpc admit validate Proxy.check_method Proxy.check_write_method_rate_limit
    is_method_allowed Proxy.proxy_to_geth Proxy.settle Breaker.can_proceed torpc.Whitelist.contains
valid = refl

-- `test_handle_rpc_blocked_method`
blocked :
    (handle_rpc sample (with_geth up) (asks "eth_accounts") node).0
    ≡ err (method_not_allowed "eth_accounts")
unfolding handle_rpc admit validate Proxy.check_method is_method_allowed torpc.Whitelist.contains
blocked = refl

refused_status :
    (handle_rpc sample
      (with_geth (λ s. replied 404 (ok "secret") (err "no")))
      (asks "eth_call")
      node).0
    ≡ err (ProxyError.upstream_error "upstream returned status 404")
unfolding handle_rpc admit validate Proxy.check_method Proxy.check_write_method_rate_limit
    is_method_allowed Proxy.proxy_to_geth Proxy.settle Breaker.can_proceed torpc.Whitelist.contains
    decimal
refused_status = refl

handle_rpc-wire_example :
    let n' = (handle_rpc sample (with_geth up) (asks "eth_call") node).1 in
    (n'.wire ≡ [])
    ⊎ (SentOne sample (asks "eth_call") node n'
        × Passes sample (with_geth up) (asks "eth_call") node)
handle_rpc-wire_example = handle_rpc-wire sample (with_geth up) (asks "eth_call") node

off_list :
    (admit sample (with_geth up) (asks "eth_sign") node).0 ≡ err (method_not_allowed "eth_sign")
unfolding admit validate Proxy.check_method is_method_allowed torpc.Whitelist.contains
off_list = refl

refusals_example :
    let e = method_not_allowed "eth_sign" in
    let n' = (admit sample (with_geth up) (asks "eth_sign") node).1 in
    (Malformed sample (asks "eth_sign") node e n'
      ⊎ Unlisted sample (asks "eth_sign") node e n'
      ⊎ OverBudget sample (with_geth up) (asks "eth_sign") node e n')
    × (handle_rpc sample (with_geth up) (asks "eth_sign") node ≡ (err e, n'))
    × (handle_flashbots sample (with_geth up) (asks "eth_sign") node ≡ (err e, n'))
refusals_example =
    refusals sample (with_geth up) (asks "eth_sign") node (method_not_allowed "eth_sign") off_list

handle_rpc-private_example :
    handle_rpc sample (with_geth down) (asks "eth_call") node
    ≡ handle_rpc sample (with_geth (λ s. unreachable "geth/v1.13 refused")) (asks "eth_call") node
handle_rpc-private_example =
    handle_rpc-private sample (with_geth down) (λ s. unreachable "geth/v1.13 refused")
      (asks "eth_call") node (λ s. Alike.both_unreachable "connection refused" "geth/v1.13 refused")

abbrev task : ℕ → Task sample
task t = record { request = asks "eth_call"; gate_time = t; outcome_time = t + 1; geth = down }

meets : (t : ℕ) → t < 100 → MeetsOutage (guarded sample) 0 100 (task t)
meets t h = (λ s. tt, omega arith, h)

outage_bounded_example :
    length
      (serve_all
        (guarded sample)
        (task 1 ∷ task 2 ∷ task 3 ∷ task 4 ∷ task 5 ∷ task 6 ∷ task 7 ∷ [])
        node).wire
    ≡ 5
outage_bounded_example =
    outage_bounded sample 0 0 (task 1 ∷ task 2 ∷ task 3 ∷ task 4 ∷ task 5 ∷ task 6 ∷ task 7 ∷ [])
      node refl (omega arith) (omega arith) (omega arith)
      (
        meets 1 (omega arith),
        (
          meets 2 (omega arith),
          (
            meets 3 (omega arith),
            (
              meets 4 (omega arith),
              (meets 5 (omega arith), (meets 6 (omega arith), (meets 7 (omega arith), tt))),
            ),
          ),
        ),
      )
