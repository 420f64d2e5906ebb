-- ===== src/Mev/Handler/Timeout/Fits.antt =====
-- Requests of /rpc/flashbots that the timeout leaves alone.
use torpc.Common.{
  ℕ, ◌+◌, ◌≤◌, ◌≡◌, refl, inl, inr, arith, String, Option, none, some, Result, str_eq, Option-cases,
  Result-split, and_then, ◌||◌,
}
use torpc.External.{External}
use torpc.Rpc.{JsonRpcRequest}
use torpc.Proxy.{Sent, admit, proxy_to_geth, proxy_to_flashbots, handle_flashbots}
use torpc.Proxy.Effects.{M}
use torpc.Proxy.Effects.Timed.{Timed, branch-Fits, Fits, whole, followed_by-Fits, inside-Fits}
use torpc.Proxy.Timeout.{Pending, fires, seen, proxy_in_time}
use torpc.Mev.Types.{Bundle}
use torpc.Mev.Client.{
  MevRelayClient, Relay, RelayEnv, first_param, create_bundle_from_tx, handle_send_raw_transaction,
  handle_send_bundle,
}
use torpc.Mev.Client.Clock.{Clock, raw_transaction_in_time, bundle_in_time}
use torpc.Mev.Client.Clock.Deadline.{Timely, longest, send_bundle_in_time-fits}
use torpc.Mev.Handler.{
  MevProxyState, on_node, on_relay, block_req, send_raw_transaction, send_bundle_request, dispatch,
  handle_flashbots_with_mev,
}
use torpc.Mev.Handler.Timeout.{
  Arrival, pending, charge_budget, clock, seen_env, node_in_time, relay_in_time, raw_in_time,
  bundle_request_in_time, node_flashbots_in_time, fallback_in_time, dispatch_in_time,
  flashbots_in_time,
}

proxy_in_time-Fits :
    (X : External) (limit : ℕ) (p : Pending (External.Value X))
    → ((sent : Sent (External.Value X)) → (seen X p sent).1 ≤ fires (p.started + limit))
    → Fits
        (proxy_in_time X limit p)
        (proxy_to_geth X (record p.env { geth = λ s. (seen X p s).0 }) p.request)
unfolding proxy_in_time
proxy_in_time-Fits X limit p early n =
    let sent : Sent (External.Value X) = record {
      url = (p.env.before_gate n.base).geth_url;
      request = p.request;
    } in
    ground (arith, early sent)

module _ (X : External) (env : RelayEnv) (client : MevRelayClient) (clock : Clock)
    (request : JsonRpcRequest (External.Value X)) (timely : Timely X env client clock)
    (early : env.gate_time + longest X env client clock ≤ clock.deadline) where
  open X use {Value, as_str}

  raw_transaction_in_time-Fits :
      (current_block : ℕ)
      → Fits
          (raw_transaction_in_time X env client clock request current_block)
          (handle_send_raw_transaction X env client request current_block)
  unfolding raw_transaction_in_time handle_send_raw_transaction
  raw_transaction_in_time-Fits current_block r =
      elim (Option-cases (and_then (first_param X env client request) as_str)) [
        | inl missing ↦ ground (arith, missing)
        | inr (raw_tx, there) ↦ ground (
          arith,
          there,
          send_bundle_in_time-fits X env client clock
              (create_bundle_from_tx client raw_tx current_block) r timely early,
        )
      ]

  bundle_in_time-Fits :
      (decode : Value → Result String Bundle)
      → Fits
          (bundle_in_time X env client clock decode request)
          (handle_send_bundle X env client decode request)
  unfolding bundle_in_time handle_send_bundle
  bundle_in_time-Fits decode r = elim (Option-cases (first_param X env client request)) [
    | inl missing ↦ ground (arith, missing)
    | inr (json, there) ↦ elim (Result-split (decode json)) [
      | inl (e, bad) ↦ ground (arith, there, bad)
      | inr (bundle, good) ↦
          ground
            (arith, there, good, send_bundle_in_time-fits X env client clock bundle r timely early)
    ]
  ]

module _ (X : External) (a : Arrival (External.Value X)) where
  open X use {Value}

  -- The node's answers come by the limit, at the latest when the client gives up on them.
  abbrev pub NodeInTime : Type 0
  NodeInTime =
      (sent : Sent Value) → (seen X (pending X a a.request) sent).1 ≤ fires (a.started + a.limit)

  -- A client whose submission asks the breaker early enough before the limit.
  abbrev pub RelayInTime : MevRelayClient → Type 0
  RelayInTime client =
      Timely X a.env.relay client (clock X a)
      × (a.env.relay.gate_time + longest X a.env.relay client (clock X a)
          ≤ fires (a.started + a.limit))

  module _ (node : NodeInTime) where
    node_in_time-Fits :
        (request : JsonRpcRequest Value)
        → Fits (node_in_time X a request) (on_node X (proxy_to_geth X (seen_env X a).node request))
    node_in_time-Fits request =
        inside-Fits (λ s. s.base_state) (λ s n. record s { base_state = n })
          (proxy_in_time X a.limit (pending X a request))
          (proxy_to_geth X (seen_env X a).node request)
          (proxy_in_time-Fits X a.limit (pending X a request) node)

    asked :
        Fits
          (proxy_in_time X a.limit (pending X a a.request))
          (proxy_to_geth X (seen_env X a).node a.request)
    asked = proxy_in_time-Fits X a.limit (pending X a a.request) node

    node_flashbots_in_time-Fits :
        Fits (node_flashbots_in_time X a) (proxy_to_flashbots X (seen_env X a).node a.request)
    unfolding node_flashbots_in_time proxy_to_flashbots
    node_flashbots_in_time-Fits =
        branch-Fits (str_eq a.request.method "eth_sendBundle") (λ s. refl) asked

    fallback_in_time-Fits :
        Fits (fallback_in_time X a) (handle_flashbots X (seen_env X a).node a.request)
    unfolding fallback_in_time handle_flashbots admit
    fallback_in_time-Fits =
        followed_by-Fits (whole (admit X a.env.node a.request))
          (admit X (seen_env X a).node a.request) _ _ (λ s. refl)
          (λ _.
            branch-Fits
              (str_eq a.request.method "eth_sendRawTransaction"
                || str_eq a.request.method "eth_sendBundle")
              node_flashbots_in_time-Fits asked)

    module _ (client : MevRelayClient) (relay : RelayInTime client) where
      relay_in_time-Fits :
          (t : Timed Relay String) (m : M Relay String)
          → Fits t m
          → Fits (relay_in_time X a t) (on_relay X (seen_env X a) m)
      relay_in_time-Fits t m fits =
          inside-Fits (λ s. s.relay) (λ s r. record s { relay = r })
            (λ r. t (record r { circuit_breaker = a.env.before_relay r.circuit_breaker }))
            (λ r. m (record r { circuit_breaker = a.env.before_relay r.circuit_breaker }))
            (λ r. fits (record r { circuit_breaker = a.env.before_relay r.circuit_breaker }))

      raw_in_time-Fits :
          Fits (raw_in_time X a client) (send_raw_transaction X client (seen_env X a) a.request)
      unfolding raw_in_time send_raw_transaction
      raw_in_time-Fits = followed_by-Fits _ _ _ _ (node_in_time-Fits (block_req X)) (λ block_resp.
          followed_by-Fits _ _ _ _ (λ s. refl)
            (λ current_block.
              followed_by-Fits _ _ _ _
                (relay_in_time-Fits _ _ (
                  raw_transaction_in_time-Fits X a.env.relay client (clock X a) a.request relay.0
                    relay.1 current_block))
                (λ bundle_hash. λ s. refl)))

      bundle_request_in_time-Fits :
          Fits
            (bundle_request_in_time X a client)
            (send_bundle_request X client (seen_env X a) a.request)
      unfolding bundle_request_in_time send_bundle_request
      bundle_request_in_time-Fits =
          followed_by-Fits _ _ _ _
            (relay_in_time-Fits _ _ (
              bundle_in_time-Fits X a.env.relay client (clock X a) a.request relay.0 relay.1
                a.env.decode))
            (λ bundle_hash. λ s. refl)

    dispatch_in_time-Fits :
        (client : Option MevRelayClient)
        → ((c : MevRelayClient) → client ≡ some c → RelayInTime c)
        → Fits (dispatch_in_time X a client) (dispatch X client (seen_env X a) a.request)
    unfolding dispatch_in_time dispatch
    dispatch_in_time-Fits none relay =
        inside-Fits (λ s. s.base_state) (λ s n. record s { base_state = n }) _ _
          fallback_in_time-Fits
    dispatch_in_time-Fits (some client) relay =
        branch-Fits (str_eq a.request.method "eth_sendRawTransaction")
          (raw_in_time-Fits client (relay client refl))
          (branch-Fits (str_eq a.request.method "eth_sendBundle")
            (bundle_request_in_time-Fits client (relay client refl)) (node_in_time-Fits a.request))

  -- A request of the MEV endpoint is done under the timeout exactly as without it, its result and the
  -- state that it leaves, with the node's answers as the HTTP client sees them: where these answers,
  -- or the client's own timeout for them, come by the limit, and where the submission to the relay
  -- asks the breaker early enough: early enough for all the attempts of the policy, each for the
  -- HTTP client's timeout, and for the longest delay before each but the first. The HTTP client
  -- gives up on every call to the relay at its timeout, and the random draws are in their range.
  -- Without a relay client the condition on the relay is void.
  pub flashbots_in_time-Fits :
      (s : MevProxyState Value)
      → NodeInTime
      → ((client : MevRelayClient) → s.mev_client ≡ some client → RelayInTime client)
      → flashbots_in_time X a s ≡ whole (handle_flashbots_with_mev X (seen_env X a) a.request) s
  unfolding flashbots_in_time handle_flashbots_with_mev
  flashbots_in_time-Fits s node relay =
      followed_by-Fits (whole (charge_budget X a)) (charge_budget X a) _ _ (λ t. refl)
        (λ _. dispatch_in_time-Fits node s.mev_client relay) s
