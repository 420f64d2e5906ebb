-- ===== src/Mev/Handler/Timeout.antt =====
-- A request of /rpc/flashbots against the clock of `json_rpc_timeout_middleware` of
-- src/security.rs: the handler of src/mev/mev_handler.rs with the time that its requests to the node
-- and its submission to the relay take. A request that is dropped stops where it waits.
pub mod Fits
pub mod Drops
use Prim.Native.String
use torpc.Common.{neg, ℕ, ◌+◌, String, ◌||◌, [], ◌∷◌, Option, none, some, ok, str_eq, if◌then◌else◌}
use torpc.External.{External}
use torpc.Rpc
use torpc.Rpc.{JsonRpcRequest, JsonRpcResponse}
use torpc.Errors.{ProxyResult}
use torpc.Proxy.{Sent, Node, admit, check_write_method_rate_limit}
use torpc.Proxy.Effects.{M, lift}
use torpc.Proxy.Timeout.{Pending, fires, seen, proxy_in_time}
use torpc.Mev.Client.{MevRelayClient, Relay, RelayCall}
use torpc.Mev.Client.Clock.{Clock, raw_transaction_in_time, bundle_in_time}
use torpc.Mev.Handler.{MevProxyState, MevEnv, on_base, block_req, read_block, answer}
use torpc.Proxy.Effects.Timed.{Timed, whole, followed_by, inside}

-- When the middleware starts its clock and how long it waits; when the node answers a request, if it
-- does, and the client's error where it gives up; and how long an attempt waits for the relay.
pub record Arrival (Value : Type 0) : Type 0 where
  pub env : MevEnv Value
  pub request : JsonRpcRequest Value
  pub started : ℕ
  pub limit : ℕ
  pub answers_at : Sent Value → Option ℕ
  pub timeout_error : String
  pub takes : ℕ → RelayCall → ℕ

module _ (X : External) (a : Arrival (External.Value X)) where
  open X use {Value, text, object}

  -- A request of the handler to the node.
  abbrev pub pending : JsonRpcRequest Value → Pending Value
  pending request = record {
    env = a.env.node;
    request = request;
    started = a.started;
    answers_at = a.answers_at;
    timeout_error = a.timeout_error;
  }

  abbrev pub clock : Clock
  clock = record { takes = a.takes; deadline = fires (a.started + a.limit) }

  -- The environment in which the node's answers are what the client makes of them.
  abbrev pub seen_env : MevEnv Value
  seen_env = record a.env {
    node = record a.env.node { geth = λ s. (seen X (pending a.request) s).0 };
  }

  abbrev pub node_in_time :
      JsonRpcRequest Value → Timed (MevProxyState Value) (JsonRpcResponse Value)
  node_in_time request =
      inside (λ s. s.base_state) (λ s n. record s { base_state = n })
        (proxy_in_time X a.limit (pending request))

  abbrev pub relay_in_time : Timed Relay String → Timed (MevProxyState Value) String
  relay_in_time f =
      inside (λ s. s.relay) (λ s r. record s { relay = r })
        (λ r. f (record r { circuit_breaker = a.env.before_relay r.circuit_breaker }))

  unfoldable pub raw_in_time : MevRelayClient → Timed (MevProxyState Value) (JsonRpcResponse Value)
  raw_in_time client = followed_by (node_in_time (block_req X)) (λ block_resp.
      followed_by (whole (lift (read_block X block_resp))) (λ current_block.
        followed_by
          (relay_in_time
            (raw_transaction_in_time X a.env.relay client clock a.request current_block))
          (λ bundle_hash. whole (lift (ok (answer X a.request (text bundle_hash)))))))

  unfoldable pub bundle_request_in_time :
      MevRelayClient → Timed (MevProxyState Value) (JsonRpcResponse Value)
  bundle_request_in_time client =
      followed_by (relay_in_time (bundle_in_time X a.env.relay client clock a.env.decode a.request))
        (λ bundle_hash.
          whole (lift (ok (answer X a.request (object (("bundleHash", text bundle_hash) ∷ []))))))

  -- `proxy_to_flashbots` and `handle_flashbots` of src/proxy.rs.
  unfoldable pub node_flashbots_in_time : Timed (Node Value) (JsonRpcResponse Value)
  node_flashbots_in_time =
      if str_eq a.request.method "eth_sendBundle"
      then whole (
          lift (
            ok (
              Rpc.error a.request.id (neg 32004)
                "MEV protection not configured: set FLASHBOTS_SIGNING_KEY to enable bundle submission"
                none)))
      else proxy_in_time X a.limit (pending a.request)

  unfoldable pub fallback_in_time : Timed (Node Value) (JsonRpcResponse Value)
  fallback_in_time = followed_by (whole (admit X a.env.node a.request)) (λ _.
      if str_eq a.request.method "eth_sendRawTransaction"
        || str_eq a.request.method "eth_sendBundle"
      then node_flashbots_in_time
      else proxy_in_time X a.limit (pending a.request))

  unfoldable pub dispatch_in_time :
      Option MevRelayClient → Timed (MevProxyState Value) (JsonRpcResponse Value)
  dispatch_in_time none =
      inside (λ s. s.base_state) (λ s n. record s { base_state = n }) fallback_in_time
  dispatch_in_time (some client) =
      if str_eq a.request.method "eth_sendRawTransaction"
      then raw_in_time client
      else if str_eq a.request.method "eth_sendBundle"
      then bundle_request_in_time client
      else node_in_time a.request

  abbrev pub charge_budget : M (MevProxyState Value) (Unit {0})
  charge_budget =
      on_base X (λ b. check_write_method_rate_limit b a.request.method a.env.node.limit_time)

  unfoldable pub flashbots_in_time : Timed (MevProxyState Value) (JsonRpcResponse Value)
  flashbots_in_time s = followed_by (whole charge_budget) (λ _. dispatch_in_time s.mev_client) s
