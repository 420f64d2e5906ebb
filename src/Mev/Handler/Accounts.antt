-- ===== src/Mev/Handler/Accounts.antt =====
-- What the MEV endpoint counts of the requests that it refuses.
use torpc.Common.{
  refl, arith, [], ◌∷◌, Option, none, some, ok, inl, inr, Option-cases, Result-split, and_then,
  parse_hex, trim_0x,
}
use torpc.External.{External}
use torpc.Rpc.{JsonRpcRequest, JsonRpcResponse}
use torpc.Security.{SecurityMetrics}
use torpc.Proxy.{check_write_method_rate_limit, proxy_to_geth}
use torpc.Proxy.Effects.{M, lift}
use torpc.Proxy.Accounts.{
  Uncounted, Uncounted-tally, Accounted, bind-Accounted, lift-Accounted, SparesMetrics,
  check_write-Accounted, proxy_to_geth-Accounted, handle_flashbots-Accounted,
}
use torpc.Mev.Client.{MevRelayClient, Relay, handle_send_raw_transaction, handle_send_bundle}
use torpc.Mev.Client.Uncounted.{raw_transaction-Uncounted, bundle-Uncounted}
use torpc.Mev.Handler.{
  MevProxyState, MevEnv, on_base, on_node, answer, on_relay, block_req, read_block,
  send_raw_transaction, send_bundle_request, dispatch, handle_flashbots_with_mev,
}

module _ (X : External) where
  open X use {Value, text, object, as_str}

  abbrev pub metrics_of : MevProxyState Value → SecurityMetrics
  metrics_of s = s.base_state.base.metrics

  abbrev Kept : {A : Type 0} → M (MevProxyState Value) A → Type 0
  Kept k = Accounted metrics_of k

  on_relay-Accounted :
      {A : Type 0} (env : MevEnv Value) (g : M Relay A)
      → ((r : Relay) → Uncounted (g r).0)
      → Kept (on_relay X env g)
  on_relay-Accounted env g h s =
      let here = record s.relay { circuit_breaker = env.before_relay s.relay.circuit_breaker } in
      ground (arith, Uncounted-tally (g here).0 (metrics_of s) (h here))

  read_block-Uncounted : (r : JsonRpcResponse Value) → Uncounted (read_block X r)
  unfolding read_block
  read_block-Uncounted r = elim (Option-cases (and_then r.result as_str)) [
    | inl missing ↦ ground arith
    | inr (block_hex, given) ↦ elim (Result-split (parse_hex (trim_0x block_hex))) [
      | inl (e, bad) ↦ ground arith
      | inr (n, good) ↦ ground arith
    ]
  ]

  module _ (env : MevEnv Value) (request : JsonRpcRequest Value)
      (before : SparesMetrics env.node.before_gate) (after : SparesMetrics env.node.others) where
    send_raw_transaction-Accounted :
        (client : MevRelayClient) → Kept (send_raw_transaction X client env request)
    unfolding send_raw_transaction
    send_raw_transaction-Accounted client =
        bind-Accounted metrics_of (on_node X (proxy_to_geth X env.node (block_req X))) _
          (λ s. proxy_to_geth-Accounted X env.node (block_req X) before after s.base_state)
          (λ r.
            bind-Accounted metrics_of (lift (read_block X r)) _
              (lift-Accounted metrics_of (read_block X r) (read_block-Uncounted r))
              (λ n.
                bind-Accounted metrics_of
                  (on_relay X env (handle_send_raw_transaction X env.relay client request n)) _
                  (on_relay-Accounted env (handle_send_raw_transaction X env.relay client request n)
                    (raw_transaction-Uncounted X env.relay client request n))
                  (λ h. lift-Accounted metrics_of (ok (answer X request (text h))) (refl, refl))))

    send_bundle_request-Accounted :
        (client : MevRelayClient) → Kept (send_bundle_request X client env request)
    unfolding send_bundle_request
    send_bundle_request-Accounted client =
        bind-Accounted metrics_of
          (on_relay X env (handle_send_bundle X env.relay client env.decode request)) _
          (on_relay-Accounted env (handle_send_bundle X env.relay client env.decode request)
            (bundle-Uncounted X env.relay client env.decode request))
          (λ h.
            lift-Accounted metrics_of (ok (answer X request (object (("bundleHash", text h) ∷ []))))
              (refl, refl))

    dispatch-Accounted : (client : Option MevRelayClient) → Kept (dispatch X client env request)
    unfolding dispatch
    dispatch-Accounted none s =
        handle_flashbots-Accounted X env.node request before after s.base_state
    dispatch-Accounted (some client) s = ground (
      arith,
      send_raw_transaction-Accounted client s,
      send_bundle_request-Accounted client s,
      proxy_to_geth-Accounted X env.node request before after s.base_state,
    )

    pub handle_flashbots_with_mev-Accounted : Kept (handle_flashbots_with_mev X env request)
    unfolding handle_flashbots_with_mev
    handle_flashbots_with_mev-Accounted s =
        bind-Accounted metrics_of
          (on_base X (λ b. check_write_method_rate_limit b request.method env.node.limit_time))
          (λ u. dispatch X s.mev_client env request)
          (λ s. check_write-Accounted s.base_state.base request.method env.node.limit_time)
          (λ u. dispatch-Accounted s.mev_client) s
