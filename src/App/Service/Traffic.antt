-- ===== src/App/Service/Traffic.antt =====
-- How many requests reach the node, and the relay, on behalf of one connection to the public listener.
use torpc.Common.{
  ℕ, ◌+◌, ◌*◌, ◌<◌, ◌≤◌, ◌≡◌, ◌^◌, inl, inr, arith, String, List, Result-split, Option, Bool-cases,
  ltb, length, IsMap, All, refl,
}
use torpc.External.{External}
use torpc.Rpc.{JsonRpcRequest, JsonRpcResponse}
use torpc.Limiter.Window.{quota}
use torpc.Proxy.{handle_rpc}
use torpc.Proxy.Effects.{M}
use torpc.Mev.Client.{MevRelayClient}
use torpc.Mev.Handler.{MevProxyState, on_node, handle_flashbots_with_mev}
use torpc.App.Service.{Service, root, rpc, rpc_flashbots, Visit, on_message, respond}
use torpc.App.Service.Sends.{sent, handle_rpc-Sends, handle_flashbots_with_mev-Sends}
use torpc.App.Service.Calls.{called, attempts, on_node-Calls, handle_flashbots_with_mev-Calls}
use torpc.App.Service.Histories.{Moment, InWindow, HandlersGrow, grown_for, grown_for-le}

module _ (X : External) (max_body_size : ℕ) where
  open X use {Value}

  -- The requests that reach the node during the visits by the connection `j`.
  abbrev pub sent_for : String → Service Value → List (Moment Value) → ℕ
  sent_for = grown_for X max_body_size sent

  -- The calls to the relay during the visits by the connection `j`.
  abbrev pub called_for : String → Service Value → List (Moment Value) → ℕ
  called_for = grown_for X max_body_size called

  module _ (count : MevProxyState Value → ℕ) (n : ℕ) (client : Option MevRelayClient) where
    on_message-grow :
        (v : Visit Value)
        (handle : JsonRpcRequest Value → M (MevProxyState Value) (JsonRpcResponse Value))
        (s : MevProxyState Value)
        → s.mev_client ≡ client
        → ((r : JsonRpcRequest Value)
            → (count (handle r s).1 ≤ n + count s) × ((handle r s).1.mev_client ≡ s.mev_client))
        → let after = (on_message X max_body_size v handle s).1 in
          (count after ≤ n + count s) × (after.mev_client ≡ client)
    on_message-grow v handle s c h = elim (Bool-cases (ltb max_body_size (length v.request.body))) [
      | inl large ↦ ground (arith, c)
      | inr fits ↦ elim (Result-split (v.decode v.request.body)) [
        | inl (status, bad) ↦ ground (arith, c)
        | inr (request, good) ↦ ground (arith, h request, c)
      ]
    ]

  respond-Sends : (client : Option MevRelayClient) → HandlersGrow X max_body_size sent 1 client
  unfolding respond
  respond-Sends client root v s c = (omega arith, c)
  respond-Sends client rpc v s c =
      on_message-grow sent 1 client v (λ r. on_node X (handle_rpc X v.handler.node r)) s c
        (λ r. handle_rpc-Sends X v.handler.node r s)
  respond-Sends client rpc_flashbots v s c =
      on_message-grow sent 1 client v (handle_flashbots_with_mev X v.handler) s c
        (λ r. handle_flashbots_with_mev-Sends X v.handler r s)

  respond-Calls :
      (client : Option MevRelayClient)
      → HandlersGrow X max_body_size called (attempts client) client
  unfolding respond
  respond-Calls client root v s c = (omega arith, c)
  respond-Calls client rpc v s c =
      on_message-grow called (attempts client) client v
        (λ r. on_node X (handle_rpc X v.handler.node r)) s c
        (λ r.
          let (quiet, kept) = on_node-Calls X (handle_rpc X v.handler.node r) s in
          (omega arith, kept))
  respond-Calls client rpc_flashbots v s c =
      on_message-grow called (attempts client) client v (handle_flashbots_with_mev X v.handler) s c
        (λ r. let h = handle_flashbots_with_mev-Calls X v.handler r s in ground (arith, h, c))

  -- In any span as long as the limiter's window, at most twice the quota of requests reach the node
  -- during the visits of one connection to the public listener, whatever it asks for, whatever other
  -- connections do, and whatever the table of the limiter held before, in which each identifier
  -- stands once. The limit is a u32.
  pub traffic_bound :
      (s : Service Value) (j : String) (from : ℕ) (ms : List (Moment Value))
      → IsMap s.rate_limiter.requests
      → s.rate_limiter.config.max_requests < 2 ^ 32
      → All (InWindow from s.rate_limiter.config.window_duration) ms
      → sent_for j s ms ≤ 2 * quota s.rate_limiter.config
  traffic_bound s j from ms m w h = omega (
    arith,
    grown_for-le X max_body_size sent 1 s.mev_state.mev_client
        (respond-Sends s.mev_state.mev_client) s j from ms refl m w h,
  )

  -- In any span as long as the limiter's window, the visits of one connection to the public listener
  -- make at most twice the quota times the retry policy's attempts of calls to the relay, whatever
  -- the connection submits and whatever the relay answers, and none without a relay client. In the
  -- limiter's table each identifier stands once, and the limit is a u32.
  pub relay_bound :
      (s : Service Value) (j : String) (from : ℕ) (ms : List (Moment Value))
      → IsMap s.rate_limiter.requests
      → s.rate_limiter.config.max_requests < 2 ^ 32
      → All (InWindow from s.rate_limiter.config.window_duration) ms
      → called_for j s ms ≤ 2 * quota s.rate_limiter.config * attempts s.mev_state.mev_client
  relay_bound s j from ms m w h =
      let client = s.mev_state.mev_client in
      grown_for-le X max_body_size called (attempts client) client (respond-Calls client) s j from
        ms refl m w h
