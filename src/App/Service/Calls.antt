-- ===== src/App/Service/Calls.antt =====
-- How often a handler of the public listener calls the relay.
use torpc.Common.{ℕ, ◌+◌, ◌≤◌, ◌≡◌, refl, arith, [], ◌∷◌, Option, none, some, ok, length}
use torpc.External.{External}
use torpc.Rpc.{JsonRpcRequest}
use torpc.Proxy.{Node, check_write_method_rate_limit, proxy_to_geth, handle_flashbots}
use torpc.Proxy.Effects.{M, lift}
use torpc.Mev.Client.{MevRelayClient, handle_send_raw_transaction, handle_send_bundle}
use torpc.Mev.Client.Bounds.{raw_transaction-Within, bundle-Within}
use torpc.Mev.Handler.{
  MevProxyState, MevEnv, on_base, on_node, answer, on_relay, block_req, read_block,
  send_raw_transaction, send_bundle_request, dispatch, handle_flashbots_with_mev,
}
use torpc.App.Service.Growth.{Grows, resumed, bind-Grows, lift-Grows}

abbrev pub called : {Value : Type 0} → MevProxyState Value → ℕ
called s = length s.relay.calls

-- The attempts that the client's policy allows a submission.
abbrev pub attempts : Option MevRelayClient → ℕ
attempts none = 0
attempts (some client) = client.retry_policy.max_attempts

module _ (X : External) where
  open X use {Value, text, object}

  -- A step of a handler that calls the relay so often at most, and keeps its client.
  abbrev pub Calls : {A : Type 0} → ℕ → M (MevProxyState Value) A → Type 0
  Calls n k = Grows X called n k

  pub on_node-Calls : {A : Type 0} (g : M (Node Value) A) → Calls 0 (on_node X g)
  on_node-Calls g s = (omega arith, refl)

  module _ (client : MevRelayClient) (env : MevEnv Value) (request : JsonRpcRequest Value) where
    abbrev most : ℕ
    most = client.retry_policy.max_attempts

    send_raw_transaction-Calls : Calls most (send_raw_transaction X client env request)
    unfolding send_raw_transaction
    send_raw_transaction-Calls =
        bind-Grows X called 0 most most (on_node X (proxy_to_geth X env.node (block_req X))) _
          (omega arith) (on_node-Calls (proxy_to_geth X env.node (block_req X)))
          (λ r.
            bind-Grows X called 0 most most (lift (read_block X r)) _ (omega arith)
              (lift-Grows X called (read_block X r))
              (λ n.
                bind-Grows X called most 0 most
                  (on_relay X env (handle_send_raw_transaction X env.relay client request n)) _
                  (omega arith)
                  (λ s. (
                    (raw_transaction-Within X env.relay client request n (record s.relay {
                      circuit_breaker = env.before_relay s.relay.circuit_breaker;
                    })).0,
                    refl,
                  ))
                  (λ h. lift-Grows X called (ok (answer X request (text h))))))

    send_bundle_request-Calls : Calls most (send_bundle_request X client env request)
    unfolding send_bundle_request
    send_bundle_request-Calls =
        bind-Grows X called most 0 most
          (on_relay X env (handle_send_bundle X env.relay client env.decode request)) _
          (omega arith)
          (λ s. (
            (bundle-Within X env.relay client env.decode request
                (record s.relay { circuit_breaker = env.before_relay s.relay.circuit_breaker })).0,
            refl,
          ))
          (λ h. lift-Grows X called (ok (answer X request (object (("bundleHash", text h) ∷ [])))))

  dispatch-Calls :
      (client : Option MevRelayClient) (env : MevEnv Value) (request : JsonRpcRequest Value)
      → Calls (attempts client) (dispatch X client env request)
  unfolding dispatch
  dispatch-Calls none env request s = on_node-Calls (handle_flashbots X env.node request) s
  dispatch-Calls (some client) env request s = ground (
    arith,
    send_raw_transaction-Calls client env request s,
    send_bundle_request-Calls client env request s,
    on_node-Calls (proxy_to_geth X env.node request) s,
  )

  pub handle_flashbots_with_mev-Calls :
      (env : MevEnv Value) (request : JsonRpcRequest Value) (s : MevProxyState Value)
      → let after = (handle_flashbots_with_mev X env request s).1 in
        (called after ≤ attempts s.mev_client + called s) × (after.mev_client ≡ s.mev_client)
  unfolding handle_flashbots_with_mev
  handle_flashbots_with_mev-Calls env request s =
      resumed X called 0 (attempts s.mev_client) (attempts s.mev_client) s
        (on_base X (λ b. check_write_method_rate_limit b request.method env.node.limit_time) s) _
        (omega arith) (omega arith, refl) (λ u. dispatch-Calls s.mev_client env request)
