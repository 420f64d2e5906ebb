-- ===== src/App/Service/Sends.antt =====
-- How many requests a handler of the public listener sends to the node.
use torpc.Common.{
  ℕ, ◌+◌, ◌≤◌, ◌≡◌, refl, ◌⊎◌, ap, inl, inr, arith, [], ◌∷◌, Option, none, some, ok, length,
  length-append,
}
use torpc.External.{External}
use torpc.Rpc.{JsonRpcRequest}
use torpc.Errors.{ProxyResult}
use torpc.Proxy.{
  ProxyState, check_write_method_rate_limit, Node, Env, proxy_to_geth, handle_rpc, handle_flashbots,
}
use torpc.Proxy.Effects.{M, lift}
use torpc.Proxy.Wire.{SentOne, proxy_to_geth-wire, handle_rpc-wire, handle_flashbots-wire}
use torpc.App.Service.Growth.{Grows, resumed, bind-Grows, lift-Grows}
use torpc.Mev.Client.{MevRelayClient, Relay, handle_send_raw_transaction, handle_send_bundle}
use torpc.Mev.Handler.{
  MevProxyState, MevEnv, on_base, on_node, answer, on_relay, block_req, read_block,
  send_raw_transaction, send_bundle_request, dispatch, handle_flashbots_with_mev,
}

abbrev pub sent : {Value : Type 0} → MevProxyState Value → ℕ
sent s = length s.base_state.wire

module _ (X : External) where
  open X use {Value, text, object}

  -- A step of a handler that sends so many requests at most, and keeps the relay's client.
  abbrev pub Sends : {A : Type 0} → ℕ → M (MevProxyState Value) A → Type 0
  Sends n k = Grows X sent n k

  on_relay-Sends : {A : Type 0} (env : MevEnv Value) (g : M Relay A) → Sends 0 (on_relay X env g)
  on_relay-Sends env g s = (omega arith, refl)

  on_base-Sends : {A : Type 0} (g : ProxyState → ProxyResult A × ProxyState) → Sends 0 (on_base X g)
  on_base-Sends g s = (omega arith, refl)

  quiet_or_one :
      (request : JsonRpcRequest Value) (n n' : Node Value)
      → ((n'.wire ≡ n.wire) ⊎ SentOne X request n n')
      → length n'.wire ≤ 1 + length n.wire
  quiet_or_one request n n' (inl quiet) = omega (arith, ap length quiet)
  quiet_or_one request n n' (inr (url, one)) =
      omega
        (arith, ap length one, length-append n.wire (record { url = url; request = request } ∷ []))

  pub handle_rpc-Sends :
      (env : Env Value) (request : JsonRpcRequest Value)
      → Sends 1 (on_node X (handle_rpc X env request))
  handle_rpc-Sends env request s = elim (handle_rpc-wire X env request s.base_state) [
    | inl quiet ↦ (
      quiet_or_one request s.base_state (handle_rpc X env request s.base_state).1 (inl quiet),
      refl,
    )
    | inr (one, passed) ↦ (
      quiet_or_one request s.base_state (handle_rpc X env request s.base_state).1 (inr one),
      refl,
    )
  ]

  handle_flashbots-Sends :
      (env : Env Value) (request : JsonRpcRequest Value)
      → Sends 1 (on_node X (handle_flashbots X env request))
  handle_flashbots-Sends env request s = elim (handle_flashbots-wire X env request s.base_state) [
    | inl quiet ↦ (
      quiet_or_one request s.base_state (handle_flashbots X env request s.base_state).1 (inl quiet),
      refl,
    )
    | inr (one, passed) ↦ (
      quiet_or_one request s.base_state (handle_flashbots X env request s.base_state).1 (inr one),
      refl,
    )
  ]

  proxy_to_geth-Sends :
      (env : Env Value) (request : JsonRpcRequest Value)
      → Sends 1 (on_node X (proxy_to_geth X env request))
  proxy_to_geth-Sends env request s = (
    quiet_or_one request s.base_state (proxy_to_geth X env request s.base_state).1
        (proxy_to_geth-wire X env request s.base_state),
    refl,
  )

  module _ (client : MevRelayClient) (env : MevEnv Value) (request : JsonRpcRequest Value) where
    send_raw_transaction-Sends : Sends 1 (send_raw_transaction X client env request)
    unfolding send_raw_transaction
    send_raw_transaction-Sends =
        bind-Grows X sent 1 0 1 (on_node X (proxy_to_geth X env.node (block_req X))) _ (omega arith)
          (proxy_to_geth-Sends env.node (block_req X))
          (λ r.
            bind-Grows X sent 0 0 0 (lift (read_block X r)) _ (omega arith)
              (lift-Grows X sent (read_block X r))
              (λ n.
                bind-Grows X sent 0 0 0
                  (on_relay X env (handle_send_raw_transaction X env.relay client request n)) _
                  (omega arith)
                  (on_relay-Sends env (handle_send_raw_transaction X env.relay client request n))
                  (λ h. lift-Grows X sent (ok (answer X request (text h))))))

    send_bundle_request-Sends : Sends 0 (send_bundle_request X client env request)
    unfolding send_bundle_request
    send_bundle_request-Sends =
        bind-Grows X sent 0 0 0
          (on_relay X env (handle_send_bundle X env.relay client env.decode request)) _
          (omega arith)
          (on_relay-Sends env (handle_send_bundle X env.relay client env.decode request))
          (λ h. lift-Grows X sent (ok (answer X request (object (("bundleHash", text h) ∷ [])))))

  dispatch-Sends :
      (client : Option MevRelayClient) (env : MevEnv Value) (request : JsonRpcRequest Value)
      → Sends 1 (dispatch X client env request)
  unfolding dispatch
  dispatch-Sends none env request s = handle_flashbots-Sends env.node request s
  dispatch-Sends (some client) env request s = ground (
    arith,
    send_raw_transaction-Sends client env request s,
    send_bundle_request-Sends client env request s,
    proxy_to_geth-Sends env.node request s,
  )

  pub handle_flashbots_with_mev-Sends :
      (env : MevEnv Value) (request : JsonRpcRequest Value)
      → Sends 1 (handle_flashbots_with_mev X env request)
  unfolding handle_flashbots_with_mev
  handle_flashbots_with_mev-Sends env request s =
      resumed X sent 0 1 1 s
        (on_base X (λ b. check_write_method_rate_limit b request.method env.node.limit_time) s) _
        (omega arith) (omega arith, refl) (λ u. dispatch-Sends s.mev_client env request)
