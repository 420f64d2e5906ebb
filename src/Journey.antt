-- ===== src/Journey.antt =====
-- A wallet's request on its whole way: through the client proxy of
-- torpc-proxy/torpc-proxy-core/src/proxy.rs and Tor to the daemon of src/app.rs, and from there to
-- the node.
use mathlib.Core.Path.{subst}
use torpc.Common.{ℕ, ◌≤◌, ◌≡◌, ◌⊎◌, sym, ap, inl, inr, List, [], ◌∷◌, none, Result, ok, length}
use torpc.External.{External}
use torpc.Rpc.{JsonRpcRequest}
use torpc.App.Service.{Service, Visit, serve}
use torpc.App.Service.Forwards.{Forwards, serve-SendsBody}
use torpc.ClientProxy.Forward.{
  max_response_bytes, ProxyConfig, WalletRequest, Upstream, Tunnel, upstream_request, do_proxy,
}
use torpc.ClientProxy.Forward.Headers.{tunnelled-once}

module _ (X : External) where
  open X use {Value}

  -- What Tor, the onion service and the daemon's HTTP server make of a request that was sent: the
  -- body arrives as it was sent, and is decoded in one way.
  pub record Delivery : Type 0 where
    pub to_visit : Upstream → Visit Value
    pub decode : List ℕ → Result ℕ (JsonRpcRequest Value)
    pub body_kept : (u : Upstream) → (to_visit u).request.body ≡ u.body
    pub decode_kept : (u : Upstream) → (to_visit u).decode ≡ decode

  module _ (T : Tunnel) (d : Delivery) (max_body_size : ℕ) where
    -- The service after it has been given these requests.
    unfoldable pub arrived : List Upstream → Service Value → Service Value
    arrived [] s = s
    arrived (u ∷ us) s = arrived us (serve X max_body_size (d.to_visit u) s).1

    -- The service after a wallet's request, of which the client proxy makes what it sends.
    abbrev pub journey : ProxyConfig → WalletRequest T.Body → Service Value → Service Value
    journey config req s = arrived (do_proxy T config req).1 s

    -- The wallet's body, read within the proxy's limit and decoded by the daemon, is what was sent.
    abbrev pub SendsWallets : WalletRequest T.Body → Service Value → Service Value → Type 0
    SendsWallets req s s' =
        (bytes : List ℕ) × (T.collect max_response_bytes req.body ≡ ok bytes)
        × ((length bytes ≤ max_response_bytes) × (length bytes ≤ max_body_size))
        × ((request : JsonRpcRequest Value) × (d.decode bytes ≡ ok request)
            × Forwards X request s.mev_state.base_state s'.mev_state.base_state)

    arrived-once :
        (config : ProxyConfig) (req : WalletRequest T.Body) (s : Service Value) (bytes : List ℕ)
        → T.collect max_response_bytes req.body ≡ ok bytes
        → s.mev_state.mev_client ≡ none
        → let s' = arrived (upstream_request T config req bytes ∷ []) s in
          (s'.mev_state.base_state.wire ≡ s.mev_state.base_state.wire) ⊎ SendsWallets req s s'
    unfolding arrived upstream_request
    arrived-once config req s bytes read c =
        let u = upstream_request T config req bytes in
        elim (serve-SendsBody X max_body_size (d.to_visit u) s c) [
          | inl quiet ↦ inl quiet
          | inr (fits, (request, good, sent)) ↦
              let decoded : d.decode u.body ≡ ok request =
                subst (λ b. d.decode b ≡ ok request) (d.body_kept u)
                  (subst (λ decode. decode (d.to_visit u).request.body ≡ ok request)
                    (d.decode_kept u) good) in
              let arrives = subst (λ b. length b ≤ max_body_size) (d.body_kept u) fits in
              let collected = T.collect_limit max_response_bytes req.body bytes read in
              inr (bytes, read, (collected, arrives), (request, decoded, sent))
        ]

    -- Of a wallet's request to a daemon without a relay client, whatever its path, its method and its
    -- headers, the node sees nothing, or exactly one request: the one that the wallet's body says,
    -- which fits the limits of the client proxy and of the daemon, is well formed, and is on the
    -- list of methods. The body arrives as it was sent, and the daemon decodes it in one way.
    pub journey-SendsWallets :
        (config : ProxyConfig) (req : WalletRequest T.Body) (s : Service Value)
        → s.mev_state.mev_client ≡ none
        → let s' = journey config req s in
          (s'.mev_state.base_state.wire ≡ s.mev_state.base_state.wire) ⊎ SendsWallets req s s'
    unfolding do_proxy arrived
    journey-SendsWallets config req s c =
        elim (tunnelled-once T config req.body (upstream_request T config req)) [
          | inl quiet ↦ inl (ap (λ us. (arrived us s).mev_state.base_state.wire) quiet)
          | inr (bytes, read, sent) ↦
              subst
                (λ us.
                  let s' = arrived us s in
                  (s'.mev_state.base_state.wire ≡ s.mev_state.base_state.wire)
                  ⊎ SendsWallets req s s')
                (sym sent) (arrived-once config req s bytes read c)
        ]
