-- ===== src/App/Service/Forwards.antt =====
-- What a visit to the public listener sends to the node, where the service has no relay client.
use mathlib.Core.Path.{subst}
use torpc.Common.{
  ℕ, ◌≤◌, ◌≡◌, ◌⊎◌, sym, refl, ap, ◌∙◌, inl, inr, arith, true, false, none, ok, length, ltb,
  Bool-cases, Result-split,
}
use torpc.External.{External}
use torpc.Rpc.{JsonRpcRequest, JsonRpcResponse, validate}
use torpc.Whitelist.{is_method_allowed}
use torpc.Limiter.{check_rate_limit, get_request_identifier, rate_limit_middleware}
use torpc.Proxy.{Node, check_write_method_rate_limit, handle_rpc}
use torpc.Proxy.Effects.{M, resume-cases}
use torpc.Proxy.Wire.{SentOne, handle_rpc-wire, handle_flashbots-wire}
use torpc.Mev.Handler.{MevProxyState, MevEnv, on_base, on_node, dispatch, handle_flashbots_with_mev}
use torpc.App.Service.{
  Service, Endpoint, root, rpc, rpc_flashbots, Matched, endpoint, wrong_method, fallback, matched,
  Visit, on_message, respond, serve_at, rate_limited, serve,
}

module _ (X : External) where
  open X use {Value}

  -- A request that is well formed and on the list is sent to the node, once.
  abbrev pub Forwards : JsonRpcRequest Value → Node Value → Node Value → Type 0
  Forwards request n n' =
      SentOne X request n n'
      × (validate request ≡ ok tt)
      × (is_method_allowed request.method ≡ true)

  abbrev Sound :
      M (MevProxyState Value) (JsonRpcResponse Value)
      → JsonRpcRequest Value
      → MevProxyState Value
      → Type 0
  Sound k request s =
      ((k s).1.base_state.wire ≡ s.base_state.wire)
      ⊎ Forwards request s.base_state (k s).1.base_state

  rpc-Sound :
      (env : MevEnv Value) (request : JsonRpcRequest Value) (s : MevProxyState Value)
      → Sound (on_node X (handle_rpc X env.node request)) request s
  rpc-Sound env request s = elim (handle_rpc-wire X env.node request s.base_state) [
    | inl quiet ↦ inl quiet
    | inr (sent, passes) ↦ inr (sent, passes.valid, passes.listed)
  ]

  flashbots-Sound :
      (env : MevEnv Value) (request : JsonRpcRequest Value) (s : MevProxyState Value)
      → s.mev_client ≡ none
      → Sound (handle_flashbots_with_mev X env request) request s
  unfolding handle_flashbots_with_mev dispatch
  flashbots-Sound env request s c =
      let checked =
        on_base X (λ b. check_write_method_rate_limit b request.method env.node.limit_time) s in
      elim (resume-cases checked (λ u. dispatch X s.mev_client env request)) [
        | inl (e, raised, same) ↦ inl (ap (λ r. r.1.base_state.wire) same)
        | inr (passed, same) ↦
            elim (handle_flashbots-wire X env.node request checked.1.base_state) [
              | inl quiet ↦ inl (rw (same, c) quiet)
              | inr (sent, passes) ↦ inr (rw (same, c) (sent, passes.valid, passes.listed))
            ]
      ]

  module _ (max_body_size : ℕ) where
    -- What was sent is what the body of the visit says.
    abbrev pub SendsBody : Visit Value → Node Value → Node Value → Type 0
    SendsBody v n n' =
        (length v.request.body ≤ max_body_size)
        × ((request : JsonRpcRequest Value) × (v.decode v.request.body ≡ ok request)
            × Forwards request n n')

    on_message-runs :
        (v : Visit Value)
        (handle : JsonRpcRequest Value → M (MevProxyState Value) (JsonRpcResponse Value))
        (s : MevProxyState Value) (request : JsonRpcRequest Value)
        → ltb max_body_size (length v.request.body) ≡ false
        → v.decode v.request.body ≡ ok request
        → (on_message X max_body_size v handle s).1 ≡ (handle request s).1
    on_message-runs v handle s request fits good = rw (on_message, fits, good) refl

    on_message-SendsBody :
        (v : Visit Value)
        (handle : JsonRpcRequest Value → M (MevProxyState Value) (JsonRpcResponse Value))
        (s : MevProxyState Value)
        → ((r : JsonRpcRequest Value) → Sound (handle r) r s)
        → let after = (on_message X max_body_size v handle s).1 in
          (after.base_state.wire ≡ s.base_state.wire) ⊎ SendsBody v s.base_state after.base_state
    on_message-SendsBody v handle s h =
        elim (Bool-cases (ltb max_body_size (length v.request.body))) [
          | inl large ↦ inl (ground arith)
          | inr fits ↦ elim (Result-split (v.decode v.request.body)) [
            | inl (status, bad) ↦ inl (ground arith)
            | inr (request, good) ↦ elim (h request) [
              | inl quiet ↦ inl (
                  ap (λ t. t.base_state.wire) (on_message-runs v handle s request fits good)
                  ∙ quiet)
              | inr ((url, sent), valid, listed) ↦
                  let same =
                    ap (λ t. t.base_state.wire) (on_message-runs v handle s request fits good) in
                  inr (ground arith, (request, good, ((url, same ∙ sent), valid, listed)))
            ]
          ]
        ]

    respond-SendsBody :
        (e : Endpoint) (v : Visit Value) (s : MevProxyState Value)
        → s.mev_client ≡ none
        → let after = (respond X max_body_size e v s).1 in
          (after.base_state.wire ≡ s.base_state.wire) ⊎ SendsBody v s.base_state after.base_state
    unfolding respond
    respond-SendsBody root v s c = inl refl
    respond-SendsBody rpc v s c =
        on_message-SendsBody v (λ r. on_node X (handle_rpc X v.handler.node r)) s
          (λ r. rpc-Sound v.handler r s)
    respond-SendsBody rpc_flashbots v s c =
        on_message-SendsBody v (handle_flashbots_with_mev X v.handler) s
          (λ r. flashbots-Sound v.handler r s c)

    abbrev node_of : Service Value → Node Value
    node_of s = s.mev_state.base_state

    serve_at-state :
        (e : Endpoint) (v : Visit Value) (s : Service Value)
        → ((serve_at X max_body_size (endpoint e) v s).1.mev_state ≡ s.mev_state)
          ⊎ ((serve_at X max_body_size (endpoint e) v s).1.mev_state
              ≡ (respond X max_body_size e v s.mev_state).1)
    unfolding serve_at rate_limited rate_limit_middleware
    serve_at-state e v s =
        elim (Bool-cases
          (check_rate_limit s.rate_limiter (get_request_identifier v.request.peer) v.now).1) [
            | inl allowed ↦ inr (rw (serve_at, rate_limited, allowed) refl)
            | inr refused ↦ inl (rw (serve_at, rate_limited, refused) refl)
          ]

    serve_at-SendsBody :
        (m : Matched) (v : Visit Value) (s : Service Value)
        → s.mev_state.mev_client ≡ none
        → let after = (serve_at X max_body_size m v s).1 in
          ((node_of after).wire ≡ (node_of s).wire) ⊎ SendsBody v (node_of s) (node_of after)
    unfolding serve_at rate_limited rate_limit_middleware
    serve_at-SendsBody wrong_method v s c =
        elim (Bool-cases
          (check_rate_limit s.rate_limiter (get_request_identifier v.request.peer) v.now).1) [
            | inl allowed ↦ inl (ground (arith, allowed))
            | inr refused ↦ inl (ground (arith, refused))
          ]
    serve_at-SendsBody fallback v s c = inl refl
    serve_at-SendsBody (endpoint e) v s c = elim (serve_at-state e v s) [
      | inl same ↦ inl (ap (λ m. m.base_state.wire) same)
      | inr same ↦
          subst (λ m. (m.base_state.wire ≡ (node_of s).wire) ⊎ SendsBody v (node_of s) m.base_state)
            (sym same) (respond-SendsBody e v s.mev_state c)
    ]

    -- A visit to a service without a relay client sends nothing to the node, or exactly one request:
    -- the one that its body says, which fits, is well formed, and is on the list of methods.
    pub serve-SendsBody :
        (v : Visit Value) (s : Service Value)
        → s.mev_state.mev_client ≡ none
        → let after = (serve X max_body_size v s).1 in
          ((node_of after).wire ≡ (node_of s).wire) ⊎ SendsBody v (node_of s) (node_of after)
    unfolding serve
    serve-SendsBody v s c = serve_at-SendsBody (matched v.request.method v.request.path) v s c
