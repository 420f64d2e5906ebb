-- ===== src/Mev/Handler.antt =====
-- The handler of the MEV endpoint, src/mev/mev_handler.rs.
--
-- Its state is the proxy's, the client when one is configured, and the client's relay state. What
-- other tasks do to the client's breaker before a submission asks it is `before_relay`.
pub mod Endpoint
pub mod Timeout
pub mod Blocks
pub mod Charges
pub mod Budget
pub mod Accounts
pub mod Counters
use Prim.Native.String
use torpc.Common.{
  and_then, ℕ, String, List, [], ◌∷◌, Option, none, some, Result, ok, err, map_err, ok_or, str_eq,
  if◌then◌else◌, trim_0x, parse_hex,
}
use torpc.External.{External}
use torpc.Rpc.{JsonRpcRequest, JsonRpcResponse}
use torpc.Errors.{ProxyError, ProxyResult, internal_error}
use torpc.Breaker.{CircuitBreaker}
use torpc.Proxy.{
  ProxyState, Node, Env, check_write_method_rate_limit, proxy_to_geth, handle_flashbots,
}
use torpc.Proxy.Effects.{M, ◌>>=◌, ◌>>◌, lift, change}
use torpc.Mev.Types.{Bundle}
use torpc.Mev.Client.{
  MevRelayClient, Relay, RelayEnv, handle_send_raw_transaction, handle_send_bundle,
}

pub record MevProxyState (Value : Type 0) : Type 0 where
  pub base_state : Node Value
  pub mev_client : Option MevRelayClient
  pub relay : Relay

pub record MevEnv (Value : Type 0) : Type 0 where
  pub node : Env Value
  pub relay : RelayEnv
  pub before_relay : CircuitBreaker → CircuitBreaker
  pub decode : Value → Result String Bundle

module _ (X : External) where
  open X use {Value, text, number, object, as_str}

  -- The parts of the state that a step of the handler is about.
  abbrev pub on_base :
      {A : Type 0} → (ProxyState → ProxyResult A × ProxyState) → M (MevProxyState Value) A
  on_base =
      change (λ s. s.base_state.base)
        (λ s b. record s { base_state = record s.base_state { base = b } })

  abbrev pub on_node : {A : Type 0} → M (Node Value) A → M (MevProxyState Value) A
  on_node = change (λ s. s.base_state) (λ s n. record s { base_state = n })

  abbrev pub on_relay : {A : Type 0} → MevEnv Value → M Relay A → M (MevProxyState Value) A
  on_relay env f =
      change (λ s. s.relay) (λ s r. record s { relay = r })
        (λ r. f (record r { circuit_breaker = env.before_relay r.circuit_breaker }))

  -- The request for the current block.
  abbrev pub block_req : JsonRpcRequest Value
  block_req = record {
    jsonrpc = "2.0";
    method = "eth_blockNumber";
    params = none;
    id = some (number 1);
  }

  -- The current block, as the node's answer gives it.
  unfoldable pub read_block : JsonRpcResponse Value → ProxyResult ℕ
  read_block block_resp = elim (and_then block_resp.result as_str) [
    | none ↦ err (internal_error "Failed to get block number")
    | some block_hex ↦
        map_err (λ e. internal_error (String.◌++◌ "Invalid block number: " e))
          (parse_hex (trim_0x block_hex))
  ]

  abbrev pub answer : JsonRpcRequest Value → Value → JsonRpcResponse Value
  answer request v = record { jsonrpc = "2.0"; result = some v; error = none; id = request.id }

  unfoldable pub send_raw_transaction :
      MevRelayClient
      → MevEnv Value
      → JsonRpcRequest Value
      → M (MevProxyState Value) (JsonRpcResponse Value)
  send_raw_transaction client env request = do
    block_resp ← on_node (proxy_to_geth X env.node block_req)
    current_block ← lift (read_block block_resp)
    bundle_hash ←
        on_relay env (handle_send_raw_transaction X env.relay client request current_block)
    lift (ok (answer request (text bundle_hash)))

  unfoldable pub send_bundle_request :
      MevRelayClient
      → MevEnv Value
      → JsonRpcRequest Value
      → M (MevProxyState Value) (JsonRpcResponse Value)
  send_bundle_request client env request = do
    bundle_hash ← on_relay env (handle_send_bundle X env.relay client env.decode request)
    lift (ok (answer request (object (("bundleHash", text bundle_hash) ∷ []))))

  -- The handler once the budget for write methods has been asked.
  unfoldable pub dispatch :
      Option MevRelayClient
      → MevEnv Value
      → JsonRpcRequest Value
      → M (MevProxyState Value) (JsonRpcResponse Value)
  dispatch none env request = on_node (handle_flashbots X env.node request)
  dispatch (some client) env request =
      if str_eq request.method "eth_sendRawTransaction"
      then send_raw_transaction client env request
      else if str_eq request.method "eth_sendBundle"
      then send_bundle_request client env request
      else on_node (proxy_to_geth X env.node request)

  unfoldable pub handle_flashbots_with_mev :
      MevEnv Value → JsonRpcRequest Value → M (MevProxyState Value) (JsonRpcResponse Value)
  handle_flashbots_with_mev env request s =
      (do
        on_base (λ b. check_write_method_rate_limit b request.method env.node.limit_time)
        dispatch s.mev_client env request)
        s
