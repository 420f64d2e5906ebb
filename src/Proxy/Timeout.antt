-- ===== src/Proxy/Timeout.antt =====
-- A request of the public listener against two clocks: `json_rpc_timeout_middleware` of
-- src/security.rs drops a request at its limit, and the client of src/proxy.rs gives up on the node
-- after thirty seconds.
--
-- A request that is dropped stops where it waits, at the node's answer: the breaker has been asked
-- and the request was sent, and nothing after the answer is done. Both clocks are timers of tokio,
-- which fire at whole milliseconds from the start of the runtime, where the instants here start. The
-- middleware looks at the request before its clock: what is done by the time that its timer fires
-- still counts. The HTTP client looks at its clock first. The refusals take no time.
pub mod Hang
use torpc.Common.{
  ℕ, ◌+◌, ◌*◌, ◌/◌, String, Bool, ◌&&◌, List, [], ◌∷◌, ◌++◌, Option, none, some, ok, err, ltb, leb,
  if◌then◌else◌,
}
use torpc.External.{External}
use torpc.Rpc.{JsonRpcRequest, JsonRpcResponse}
use torpc.Errors.{ProxyResult}
use torpc.Breaker.{second, can_proceed}
use torpc.Proxy.{Exchange, unreachable, Sent, Node, Env, admit, proxy_to_geth}

-- `Client::builder().timeout(…)` of `ProxyState::new`.
abbrev pub client_timeout : ℕ
client_timeout = 30 * second

-- When a timer for an instant fires: at the first whole millisecond that is not before it.
abbrev pub fires : ℕ → ℕ
fires at = (at + 999_999) / 1_000_000 * 1_000_000

-- When the middleware starts its clock, when the node answers a request, if it does, and the
-- client's error where it gives up.
pub record Pending (Value : Type 0) : Type 0 where
  pub env : Env Value
  pub request : JsonRpcRequest Value
  pub started : ℕ
  pub answers_at : Sent Value → Option ℕ
  pub timeout_error : String

module _ (X : External) where
  open X use {Value}

  -- What the client makes of the node's answer, and when.
  abbrev pub seen : Pending Value → Sent Value → Exchange Value × ℕ
  seen p sent =
      let deadline = fires (p.env.gate_time + client_timeout) in
      elim (p.answers_at sent) as (λ _. Exchange Value × ℕ) [
        | none ↦ (unreachable p.timeout_error, deadline)
        | some at ↦
            if leb deadline at
            then (unreachable p.timeout_error, deadline)
            else (p.env.geth sent, at)
      ]

  -- `proxy_to_geth` under the limit: its result, if it comes to one, and the state.
  unfoldable pub proxy_in_time :
      ℕ → Pending Value → Node Value → Option (ProxyResult (JsonRpcResponse Value)) × Node Value
  proxy_in_time limit p n =
      let here = p.env.before_gate n.base in
      let (breaker, allowed) = can_proceed here.geth_circuit p.env.gate_time in
      let sent : Sent Value = record { url = here.geth_url; request = p.request } in
      let done = proxy_to_geth X (record p.env { geth = λ s. (seen p s).0 }) p.request n in
      let waiting : Node Value = record {
        base = p.env.others (record here { geth_circuit = breaker });
        wire = n.wire ++ sent ∷ [];
      } in
      if allowed && ltb (fires (p.started + limit)) (seen p sent).1
      then (none, waiting)
      else (some done.0, done.1)

  -- `handle_rpc` under the limit.
  unfoldable pub handle_in_time :
      ℕ → Pending Value → Node Value → Option (ProxyResult (JsonRpcResponse Value)) × Node Value
  unfolding proxy_in_time
  handle_in_time limit p n =
      let checked = admit X p.env p.request n in
      elim checked.0 [ err e ↦ (some (err e), checked.1) | ok u ↦ proxy_in_time limit p checked.1 ]

  -- Requests that follow one another.
  unfoldable pub serve_in_time : ℕ → List (Pending Value) → Node Value → Node Value
  serve_in_time limit [] n = n
  serve_in_time limit (p ∷ ps) n = serve_in_time limit ps (handle_in_time limit p n).1

  -- The results that these have.
  unfoldable pub results_in_time :
      ℕ → List (Pending Value) → Node Value → List (Option (ProxyResult (JsonRpcResponse Value)))
  results_in_time limit [] n = []
  results_in_time limit (p ∷ ps) n =
      (handle_in_time limit p n).0 ∷ results_in_time limit ps (handle_in_time limit p n).1
