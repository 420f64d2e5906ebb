-- ===== src/Proxy/Outage.antt =====
-- The breaker at work: how many requests reach a node that is down.
use torpc.Common.{
  if◌then◌else◌, ℕ, ◌+◌, ◌-◌, ◌<◌, ◌^◌, min, ◌≡◌, ◌⊎◌, inl, inr, refl, String, true, false, List,
  [], ◌∷◌, arith, err, All, length, length-append,
}
use torpc.Breaker.Outage.{Guarded, MeetsOutage, serve_all, let_through, let_through-closed}
use torpc.External.{External}
use torpc.Rpc.{JsonRpcRequest}
use torpc.Breaker.{closed, can_proceed, record_failure}
use torpc.Proxy.{ProxyState, Exchange, unreachable, replied, Sent, Node, Env, settle, proxy_to_geth}

module _ (X : External) where
  open X use {Value, is_success, is_server_error}

  -- Answers that count against the node: none at all, a status of 500 to 599, or a success that
  -- cannot be decoded.
  abbrev pub IsFailure : Exchange Value → Type 0
  IsFailure (unreachable e) = Unit
  IsFailure (replied status text json) =
      (is_server_error status ≡ true)
      ⊎ ((is_success status ≡ true) × ((e : String) × (json ≡ err e)))

  settle-IsFailure :
      (x : Exchange Value) (b : ProxyState) (now : ℕ)
      → IsFailure x
      → (settle X x b now).1 ≡ record b { geth_circuit = record_failure b.geth_circuit now }
  unfolding settle
  settle-IsFailure (unreachable e) b now f = refl
  settle-IsFailure (replied status text json) b now (inl down) =
      ground (arith, X.is_success_iff status, X.is_server_error_iff status)
  settle-IsFailure (replied status text json) b now (inr (up, (e, bad))) = ground arith

  -- A request that is served while no other task touches the shared state.
  pub record Task : Type 0 where
    pub request : JsonRpcRequest Value
    pub gate_time : ℕ
    pub outcome_time : ℕ
    pub geth : Sent Value → Exchange Value

  abbrev pub alone : Task → Env Value
  alone t = record {
    limit_time = t.gate_time;
    gate_time = t.gate_time;
    outcome_time = t.outcome_time;
    geth = t.geth;
    before_gate = λ b. b;
    others = λ b. b;
  }

  pub proxy_to_geth-refused :
      (t : Task) (n : Node Value)
      → (can_proceed n.base.geth_circuit t.gate_time).1 ≡ false
      → (proxy_to_geth X (alone t) t.request n).1.base.geth_circuit
        ≡ (can_proceed n.base.geth_circuit t.gate_time).0
  unfolding proxy_to_geth
  proxy_to_geth-refused t n stop = ground (arith, stop)

  pub proxy_to_geth-failed :
      (t : Task) (n : Node Value)
      → ((s : Sent Value) → IsFailure (t.geth s))
      → (can_proceed n.base.geth_circuit t.gate_time).1 ≡ true
      → (proxy_to_geth X (alone t) t.request n).1.base.geth_circuit
        ≡ record_failure (can_proceed n.base.geth_circuit t.gate_time).0 t.outcome_time
  unfolding proxy_to_geth
  proxy_to_geth-failed t n down go =
      let sent : Sent Value = record { url = n.base.geth_url; request = t.request } in
      let gated = record n.base {
        geth_circuit = (can_proceed n.base.geth_circuit t.gate_time).0;
      } in
      ground (arith, go, settle-IsFailure (t.geth sent) gated t.outcome_time (down sent))

  -- The proxy as a client of its breaker: a task fails where the node does.
  abbrev pub guarded : Guarded (Node Value) Task
  guarded = record {
    breaker = λ n. n.base.geth_circuit;
    serve = λ t n. (proxy_to_geth X (alone t) t.request n).1;
    gate_time = λ t. t.gate_time;
    outcome_time = λ t. t.outcome_time;
    Fails = λ t. (s : Sent Value) → IsFailure (t.geth s);
    refused = proxy_to_geth-refused;
    failed = proxy_to_geth-failed;
  }

  proxy_to_geth-sends :
      (t : Task) (n : Node Value)
      → length (proxy_to_geth X (alone t) t.request n).1.wire
        ≡ length n.wire + (if (can_proceed n.base.geth_circuit t.gate_time).1 then 1 else 0)
  unfolding proxy_to_geth
  proxy_to_geth-sends t n =
      let sent : Sent Value = record { url = n.base.geth_url; request = t.request } in
      ground (arith, length-append n.wire (sent ∷ []))

  serve_all-sends :
      (ts : List Task) (n : Node Value)
      → length (serve_all guarded ts n).wire ≡ length n.wire + let_through guarded ts n
  unfolding serve_all let_through
  serve_all-sends [] n = omega arith
  serve_all-sends (t ∷ ts) n =
      ground (
        arith,
        proxy_to_geth-sends t n,
        serve_all-sends ts (proxy_to_geth X (alone t) t.request n).1,
      )

  -- While the node is down, of requests that follow one another within the recovery timeout exactly
  -- as many reach it as the closed breaker has failures left before its threshold, or all of
  -- them, where they are fewer; every later one is answered without asking the node.
  pub outage_bounded :
      (from k : ℕ) (ts : List Task) (n : Node Value)
      → n.base.geth_circuit.state ≡ closed k
      → k < n.base.geth_circuit.failure_threshold
      → n.base.geth_circuit.failure_threshold < 2 ^ 32
      → 0 < n.base.geth_circuit.recovery_timeout
      → All (MeetsOutage guarded from n.base.geth_circuit.recovery_timeout) ts
      → length (serve_all guarded ts n).wire
        ≡ length n.wire + min (length ts) (n.base.geth_circuit.failure_threshold - k)
  outage_bounded from k ts n s low w r h =
      omega (arith, serve_all-sends ts n, let_through-closed guarded from k ts n s low w r h)
