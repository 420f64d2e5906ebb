-- ===== src/Mev/Handler/Timeout/Drops.antt =====
-- What is left of a request of /rpc/flashbots that the timeout drops.
use torpc.Common.{
  ok, ◌∙◌, ℕ, ◌+◌, ◌&&◌, ltb, ◌≡◌, ◌⊎◌, refl, inl, inr, arith, String, Option, none, some, Result,
  str_eq, Option-cases, Result-split, and_then, ◌||◌,
}
use torpc.External.{External}
use torpc.Rpc.{JsonRpcRequest, JsonRpcResponse}
use torpc.Limiter.{RateLimiter}
use torpc.Mev.Handler.Charges.{settle-limiter}
use torpc.Breaker.{CircuitBreaker, can_proceed}
use torpc.Proxy.{Sent, Node, admit, proxy_to_geth, proxy_to_flashbots, handle_flashbots}
use torpc.Proxy.Effects.{M, lift, resume}
use torpc.Proxy.Effects.Timed.{
  Timed, DoneOr, drop_if-DoneOr, Drops, resume-keeps, begun_by-Drops, followed_by-Drops,
  ended_by-Drops, branch-Drops, inside-Drops,
}
use torpc.Proxy.Timeout.{Pending, fires, seen, proxy_in_time}
use torpc.Mev.Types.{Bundle}
use torpc.Mev.Client.{
  MevRelayClient, Relay, RelayEnv, first_param, create_bundle_from_tx, handle_send_raw_transaction,
  handle_send_bundle,
}
use torpc.Mev.Client.Clock.{Clock, raw_transaction_in_time, bundle_in_time}
use torpc.Mev.Client.Clock.Deadline.{send_bundle-DoneOrDropped}
use torpc.Mev.Handler.{
  answer, MevProxyState, on_node, on_relay, block_req, read_block, send_raw_transaction,
  send_bundle_request, dispatch, handle_flashbots_with_mev,
}
use torpc.Mev.Handler.Timeout.{
  Arrival, charge_budget, pending, clock, seen_env, node_in_time, relay_in_time, raw_in_time,
  bundle_request_in_time, node_flashbots_in_time, fallback_in_time, dispatch_in_time,
  flashbots_in_time,
}

-- The budget of the methods, where a handler would leave the state and where it is left.
abbrev pub SameBudget : {Value : Type 0} → Node Value → Node Value → Node Value → Type 0
SameBudget n d n' = d.base.write_method_limiter ≡ n'.base.write_method_limiter

pub proxy_in_time-Drops :
    (X : External) (limit : ℕ) (p : Pending (External.Value X))
    → Drops SameBudget
        (proxy_in_time X limit p)
        (proxy_to_geth X (record p.env { geth = λ s. (seen X p s).0 }) p.request)
unfolding proxy_in_time proxy_to_geth
proxy_in_time-Drops X limit p n =
    let here = p.env.before_gate n.base in
    let (breaker, allowed) = can_proceed here.geth_circuit p.env.gate_time in
    let sent : Sent (External.Value X) = record { url = here.geth_url; request = p.request } in
    let after = p.env.others (record here { geth_circuit = breaker }) in
    let done = proxy_to_geth X (record p.env { geth = λ s. (seen X p s).0 }) p.request n in
    drop_if-DoneOr (SameBudget n done.1)
      (allowed && ltb (fires (p.started + limit)) (seen X p sent).1) _ _
      (λ late. ground (arith, late, settle-limiter X (seen X p sent).0 after p.env.outcome_time))

-- A relay whose breaker has been asked and told nothing.
abbrev Asked : RelayEnv → Relay → Relay → Type 0
Asked env r r' = r'.circuit_breaker ≡ (can_proceed r.circuit_breaker env.gate_time).0

module _ (X : External) (env : RelayEnv) (client : MevRelayClient) (clock : Clock)
    (request : JsonRpcRequest (External.Value X)) (r : Relay) where
  open X use {Value, as_str}

  raw_transaction_in_time-DoneOr :
      (current_block : ℕ)
      → DoneOr
          (Asked env r)
          (handle_send_raw_transaction X env client request current_block r)
          (raw_transaction_in_time X env client clock request current_block r)
  unfolding raw_transaction_in_time handle_send_raw_transaction
  raw_transaction_in_time-DoneOr current_block =
      elim (Option-cases (and_then (first_param X env client request) as_str)) [
        | inl missing ↦ inl (ground (arith, missing))
        | inr (raw_tx, there) ↦
            rw (raw_transaction_in_time, handle_send_raw_transaction, there)
              (send_bundle-DoneOrDropped X env client clock
                (create_bundle_from_tx client raw_tx current_block) r)
      ]

  bundle_in_time-DoneOr :
      (decode : Value → Result String Bundle)
      → DoneOr
          (Asked env r)
          (handle_send_bundle X env client decode request r)
          (bundle_in_time X env client clock decode request r)
  unfolding bundle_in_time handle_send_bundle
  bundle_in_time-DoneOr decode = elim (Option-cases (first_param X env client request)) [
    | inl missing ↦ inl (ground (arith, missing))
    | inr (json, there) ↦ elim (Result-split (decode json)) [
      | inl (e, bad) ↦ inl (ground (arith, there, bad))
      | inr (bundle, good) ↦
          rw (bundle_in_time, handle_send_bundle, there, good)
            (send_bundle-DoneOrDropped X env client clock bundle r)
    ]
  ]

module _ (X : External) (a : Arrival (External.Value X)) where
  open X use {Value, text, object}

  -- The relay's breaker is as it was, or as it is once it has been asked.
  abbrev pub Untold : CircuitBreaker → MevProxyState Value → Type 0
  Untold b s =
      (s.relay.circuit_breaker ≡ b)
      ⊎ (s.relay.circuit_breaker ≡ (can_proceed (a.env.before_relay b) a.env.relay.gate_time).0)

  abbrev budget : MevProxyState Value → RateLimiter
  budget s = s.base_state.base.write_method_limiter

  -- The states before, at the handler's end, and where it is dropped.
  abbrev pub Heard : MevProxyState Value → MevProxyState Value → MevProxyState Value → Type 0
  Heard s d s' = Untold s.relay.circuit_breaker s' × (budget d ≡ budget s')

  node_in_time-Drops :
      (request : JsonRpcRequest Value)
      → Drops Heard
          (node_in_time X a request)
          (on_node X (proxy_to_geth X (seen_env X a).node request))
  node_in_time-Drops request =
      inside-Drops (λ s. s.base_state) (λ s n. record s { base_state = n }) SameBudget Heard
        (proxy_in_time X a.limit (pending X a request))
        (proxy_to_geth X (seen_env X a).node request) (λ s d n q. (inl refl, q))
        (proxy_in_time-Drops X a.limit (pending X a request))

  relay_in_time-Drops :
      (t : Timed Relay String) (m : M Relay String)
      → ((r : Relay) → DoneOr (Asked a.env.relay r) (m r) (t r))
      → Drops Heard (relay_in_time X a t) (on_relay X (seen_env X a) m)
  relay_in_time-Drops t m heard =
      let before : Relay → Relay =
        λ r. record r { circuit_breaker = a.env.before_relay r.circuit_breaker } in
      inside-Drops (λ s. s.relay) (λ s r. record s { relay = r })
        (λ r d. Asked a.env.relay (before r)) Heard (λ r. t (before r)) (λ r. m (before r))
        (λ s d r asked. (inr asked, refl)) (λ r. heard (before r))

  -- What follows the current block does not touch the budget.
  after_block-budget :
      (client : MevRelayClient) (block_resp : JsonRpcResponse Value) (d : MevProxyState Value)
      → budget
          (resume (lift (read_block X block_resp) d) (λ current_block t.
            resume
              (on_relay X
                (seen_env X a)
                (handle_send_raw_transaction X a.env.relay client a.request current_block)
                t)
              (λ bundle_hash. lift (ok (answer X a.request (text bundle_hash)))))).1
        ≡ budget d
  after_block-budget client block_resp d =
      resume-keeps (λ e. budget e ≡ budget d) (lift (read_block X block_resp) d) _
        (λ current_block t same.
          resume-keeps (λ e. budget e ≡ budget d)
            (on_relay X (seen_env X a)
              (handle_send_raw_transaction X a.env.relay client a.request current_block) t)
            (λ bundle_hash. lift (ok (answer X a.request (text bundle_hash)))) (λ h u kept. kept)
            same)
        refl

  raw_in_time-Drops :
      (client : MevRelayClient)
      → Drops Heard
          (raw_in_time X a client)
          (send_raw_transaction X client (seen_env X a) a.request)
  unfolding raw_in_time send_raw_transaction
  raw_in_time-Drops client =
      followed_by-Drops Heard _ _ _ _ (node_in_time-Drops (block_req X))
        (λ block_resp.
          begun_by-Drops Heard (lift (read_block X block_resp)) _ _
            (λ current_block.
              ended_by-Drops Heard _ _ _ _
                (relay_in_time-Drops _ _ (λ r.
                  raw_transaction_in_time-DoneOr X a.env.relay client (clock X a) a.request r
                    current_block))
                (λ bundle_hash. λ s. refl) (λ h s d s' q. q))
            (λ s d s' q. q))
        (λ s d s' q. q) (λ resp s d s' q. (q.0, after_block-budget client resp d ∙ q.1))

  bundle_request_in_time-Drops :
      (client : MevRelayClient)
      → Drops Heard
          (bundle_request_in_time X a client)
          (send_bundle_request X client (seen_env X a) a.request)
  unfolding bundle_request_in_time send_bundle_request
  bundle_request_in_time-Drops client =
      ended_by-Drops Heard _ _ _ _
        (relay_in_time-Drops _ _
          (λ r. bundle_in_time-DoneOr X a.env.relay client (clock X a) a.request r a.env.decode))
        (λ bundle_hash. λ s. refl) (λ h s d s' q. q)

  asked :
      Drops SameBudget
        (proxy_in_time X a.limit (pending X a a.request))
        (proxy_to_geth X (seen_env X a).node a.request)
  asked n = proxy_in_time-Drops X a.limit (pending X a a.request) n

  node_flashbots_in_time-Drops :
      Drops SameBudget
        (node_flashbots_in_time X a)
        (proxy_to_flashbots X (seen_env X a).node a.request)
  unfolding node_flashbots_in_time proxy_to_flashbots
  node_flashbots_in_time-Drops =
      branch-Drops SameBudget (str_eq a.request.method "eth_sendBundle") (λ n. inl refl) asked

  fallback_in_time-Drops :
      Drops SameBudget (fallback_in_time X a) (handle_flashbots X (seen_env X a).node a.request)
  unfolding fallback_in_time handle_flashbots admit
  fallback_in_time-Drops =
      begun_by-Drops SameBudget (admit X a.env.node a.request) _ _
        (λ _.
          branch-Drops SameBudget
            (str_eq a.request.method "eth_sendRawTransaction"
              || str_eq a.request.method "eth_sendBundle")
            node_flashbots_in_time-Drops asked)
        (λ n d n' q. q)

  dispatch_in_time-Drops :
      (client : Option MevRelayClient)
      → Drops Heard (dispatch_in_time X a client) (dispatch X client (seen_env X a) a.request)
  unfolding dispatch_in_time dispatch
  dispatch_in_time-Drops none =
      inside-Drops (λ s. s.base_state) (λ s n. record s { base_state = n }) SameBudget Heard _ _
        (λ s d n q. (inl refl, q)) fallback_in_time-Drops
  dispatch_in_time-Drops (some client) =
      branch-Drops Heard (str_eq a.request.method "eth_sendRawTransaction")
        (raw_in_time-Drops client)
        (branch-Drops Heard (str_eq a.request.method "eth_sendBundle")
          (bundle_request_in_time-Drops client) (node_in_time-Drops a.request))

  -- A request of the MEV endpoint under the timeout is done as without it, or it is dropped; and a
  -- request that is dropped has told the relay's breaker no outcome: the breaker is as the request
  -- found it, or as it is once the submission has asked it, whatever the relay has answered so far.
  -- The budget of the methods is left as by a request that is done.
  pub flashbots_in_time-Drops :
      Drops Heard (flashbots_in_time X a) (handle_flashbots_with_mev X (seen_env X a) a.request)
  unfolding flashbots_in_time handle_flashbots_with_mev
  flashbots_in_time-Drops s =
      begun_by-Drops Heard (charge_budget X a) _ _ (λ _. dispatch_in_time-Drops s.mev_client)
        (λ t d t' q. q) s
