-- ===== src/Mev/Handler/Endpoint.antt =====
-- Which requests the MEV endpoint sends to the upstream node.
use torpc.Common.{
  String, true, false, ◌≡◌, refl, sym, ap, ◌∙◌, ◌⊎◌, inl, inr, arith, Option, some, Result-cases,
  err, str_eq, eq_iff, Bool-cases,
}
use torpc.External.{External}
use torpc.Rpc.{JsonRpcRequest}
use torpc.Errors.{ProxyError}
use torpc.Whitelist.{contains, is_method_allowed}
use torpc.Proxy.{
  Node, write_methods, check_write_method_rate_limit, admit, proxy_to_geth, handle_flashbots,
}
use torpc.Proxy.Effects.{resume-cases}
use torpc.Proxy.Gate.{admit-Passes, admit-wire}
use torpc.Proxy.Rejects.{refusals}
use torpc.Proxy.Wire.{SentOne, proxy_to_geth-wire}
use torpc.Mev.Client.{MevRelayClient}
use torpc.Mev.Handler.{
  MevProxyState, MevEnv, on_base, on_node, block_req, send_raw_transaction, dispatch,
  handle_flashbots_with_mev,
}

module _ (X : External) (env : MevEnv (External.Value X))
    (request : JsonRpcRequest (External.Value X)) where
  open X use {Value}

  unlisted-≢ :
      (w : String)
      → is_method_allowed w ≡ true
      → is_method_allowed request.method ≡ false
      → (str_eq request.method w ≡ false) × (str_eq w request.method ≡ false)
  unlisted-≢ w listed h =
      let differ : request.method ≡ w → ⊥ = λ e. cc in
      (
        elim (Bool-cases (str_eq request.method w)) [
          | inl same ↦ absurd (differ ((eq_iff request.method w).0 same))
          | inr other ↦ other
        ],
        elim (Bool-cases (str_eq w request.method)) [
          | inl same ↦ absurd (differ (sym ((eq_iff w request.method).0 same)))
          | inr other ↦ other
        ],
      )

  unlisted-not_write :
      is_method_allowed request.method ≡ false
      → (contains request.method write_methods ≡ false)
        × (str_eq request.method "eth_sendRawTransaction" ≡ false)
        × (str_eq request.method "eth_sendBundle" ≡ false)
  unfolding is_method_allowed contains
  unlisted-not_write h =
      ground (arith, unlisted-≢ "eth_sendRawTransaction" refl h, unlisted-≢ "eth_sendBundle" refl h)

  refused_off_list :
      (n : Node Value)
      → is_method_allowed request.method ≡ false
      → ((handle_flashbots X env.node request n).1.wire ≡ n.wire)
        × ((e : ProxyError) × ((handle_flashbots X env.node request n).0 ≡ err e))
  refused_off_list n h = elim (Result-cases (admit X env.node request n).0) [
    | inl (e, raised) ↦
        let (why, rpc, same) = refusals X env.node request n e raised in
        (ap (λ r. r.1.wire) same ∙ admit-wire X env.node request n, (e, ap (λ r. r.0) same))
    | inr passed ↦ let listed = (admit-Passes X env.node request n passed).listed in cc
  ]

  -- With a client, a request whose method is not on the list is handled as the node would be called
  -- for it, by no check but the breaker's, where `handle_flashbots` sends nothing and answers
  -- an error.
  pub whitelist_skipped :
      (client : MevRelayClient) (s : MevProxyState Value)
      → s.mev_client ≡ some client
      → is_method_allowed request.method ≡ false
      → (handle_flashbots_with_mev X env request s ≡ on_node X (proxy_to_geth X env.node request) s)
        × ((handle_flashbots X env.node request s.base_state).1.wire ≡ s.base_state.wire)
        × ((e : ProxyError) × ((handle_flashbots X env.node request s.base_state).0 ≡ err e))
  unfolding handle_flashbots_with_mev dispatch check_write_method_rate_limit
  whitelist_skipped client s c h =
      let (a, b, d) = unlisted-not_write h in
      let (quiet, refused) = refused_off_list s.base_state h in (ground arith, quiet, refused)

  send_raw_transaction-node :
      (client : MevRelayClient) (s : MevProxyState Value)
      → (send_raw_transaction X client env request s).1.base_state
        ≡ (proxy_to_geth X env.node (block_req X) s.base_state).1
  unfolding send_raw_transaction
  send_raw_transaction-node client s = ground arith

  dispatch-raw :
      (client : Option MevRelayClient) (some_client : MevRelayClient) (s : MevProxyState Value)
      → client ≡ some some_client
      → request.method ≡ "eth_sendRawTransaction"
      → (dispatch X client env request s).1.base_state
        ≡ (proxy_to_geth X env.node (block_req X) s.base_state).1
  unfolding dispatch
  dispatch-raw client some_client s c m =
      let same : str_eq request.method "eth_sendRawTransaction" ≡ true =
        (eq_iff request.method _).1 m in
      ground (arith, send_raw_transaction-node some_client s)

  -- With a client, a raw transaction is not sent to the node: the wire is as it was, or has one
  -- request more, which asks for the current block.
  pub raw_transaction_unsent :
      (client : MevRelayClient) (s : MevProxyState Value)
      → s.mev_client ≡ some client
      → request.method ≡ "eth_sendRawTransaction"
      → let s' = (handle_flashbots_with_mev X env request s).1 in
        (s'.base_state.wire ≡ s.base_state.wire)
        ⊎ SentOne X (block_req X) s.base_state s'.base_state
  unfolding handle_flashbots_with_mev dispatch
  raw_transaction_unsent client s c m =
      let checked : MevProxyState Value → MevProxyState Value = λ t.
        (on_base X (λ b. check_write_method_rate_limit b request.method env.node.limit_time) t).1 in
      elim (resume-cases
        (on_base X (λ b. check_write_method_rate_limit b request.method env.node.limit_time) s)
        (λ _. dispatch X s.mev_client env request)) [
          | inl (e, raised, same) ↦ inl (ap (λ r. r.1.base_state.wire) same)
          | inr (passed, same) ↦
              let there : (handle_flashbots_with_mev X env request s).1.base_state
                  ≡ (proxy_to_geth X env.node (block_req X) (checked s).base_state).1 =
                ap (λ r. r.1.base_state) same ∙ dispatch-raw s.mev_client client (checked s) c m in
              rw there (proxy_to_geth-wire X env.node (block_req X) (checked s).base_state)
        ]
