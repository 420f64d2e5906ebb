-- ===== src/App/Service/Deadline/Charged.antt =====
-- What the timeout of the public listener changes, and what it does not.
use mathlib.Core.Option.{map as map_some}
use torpc.Common.{
  true, false, ℕ, ◌≡◌, ◌⊎◌, refl, ap, inl, inr, arith, Option, none, some, Result, ok, err, ltb,
  length, if◌then◌else◌, Bool-cases,
}
use torpc.External.{External}
use torpc.Rpc.{JsonRpcRequest, JsonRpcResponse}
use torpc.Limiter.{check_rate_limit, get_request_identifier, rate_limit_middleware}
use torpc.Proxy.{Node, admit, proxy_to_geth, handle_rpc}
use torpc.Errors.{ProxyResult}
use torpc.Proxy.Effects.{M, resume}
use torpc.Proxy.Effects.Timed.{Timed, DoneOr, Drops, inside-Drops}
use torpc.Proxy.Timeout.{proxy_in_time, handle_in_time}
use torpc.Mev.Handler.{MevProxyState, on_node, block_req}
use torpc.Mev.Handler.Timeout.{pending}
use torpc.Mev.Handler.Timeout.Drops.{
  Heard, SameBudget, proxy_in_time-Drops, flashbots_in_time-Drops,
}
use torpc.Security.Middleware.{Response}
use torpc.App.Service.{
  Service, Endpoint, root, rpc, rpc_flashbots, Matched, endpoint, wrong_method, fallback, matched,
  Body, bare, json_answer, on_message, respond, serve_at, rate_limited, serve, public_response,
}
use torpc.App.Service.Deadline.{
  Slow, is_kept_out, arrival, seen_visit, rpc_in_time, on_message_in_time, respond_in_time,
  serve_at_in_time, serve_in_time,
}

module _ (X : External) (w : Slow (External.Value X)) (max_body_size : ℕ) where
  open X use {Value}

  -- The relay's breaker was told no outcome, and the budget of the methods is that of the end.
  abbrev Kept : MevProxyState Value → MevProxyState Value → MevProxyState Value → Type 0
  Kept s d s' = Heard X (arrival X w (block_req X)) s d s'

  admitted-Drops :
      (r : ProxyResult (Unit {0}) × Node Value) (t : Timed (Node Value) (JsonRpcResponse Value))
      (m : M (Node Value) (JsonRpcResponse Value))
      → Drops SameBudget t m
      → DoneOr
          (SameBudget r.1 (resume r (λ _. m)).1)
          (resume r (λ _. m))
          (elim r.0 as (λ _. Option (ProxyResult (JsonRpcResponse Value)) × Node Value) [
            | err e ↦ (some (err e), r.1)
            | ok u ↦ t r.1
          ])
  admitted-Drops (ok u, n) t m drops = drops n
  admitted-Drops (err e, n) t m drops = inl refl

  handle_in_time-Drops :
      (request : JsonRpcRequest Value)
      → Drops SameBudget
          (handle_in_time X w.limit (pending X (arrival X w request) request))
          (handle_rpc X (seen_visit X w).handler.node request)
  unfolding handle_in_time handle_rpc admit
  handle_in_time-Drops request n =
      let p = pending X (arrival X w request) request in
      admitted-Drops (admit X w.visit.handler.node request n) (proxy_in_time X w.limit p)
        (proxy_to_geth X (seen_visit X w).handler.node request) (proxy_in_time-Drops X w.limit p)

  rpc_in_time-Drops :
      (request : JsonRpcRequest Value)
      → Drops Kept
          (rpc_in_time X w request)
          (on_node X (handle_rpc X (seen_visit X w).handler.node request))
  rpc_in_time-Drops request =
      inside-Drops (λ s. s.base_state) (λ s n. record s { base_state = n }) SameBudget Kept _ _
        (λ s d n q. (inl refl, q)) (handle_in_time-Drops request)

  -- Answered as without the timeout, or dropped in a state that is to the end's as the relation says.
  abbrev Answered : {A S : Type 0} → (S → S → Type 0) → A × S → Option A × S → Type 0
  Answered Q done t = (t ≡ (some done.0, done.1)) ⊎ ((t.0 ≡ none) × Q done.1 t.1)

  on_message-Answered :
      (t : JsonRpcRequest Value → Timed (MevProxyState Value) (JsonRpcResponse Value))
      (m : JsonRpcRequest Value → M (MevProxyState Value) (JsonRpcResponse Value))
      (s : MevProxyState Value)
      → ((request : JsonRpcRequest Value) → Drops Kept (t request) (m request))
      → Answered
          (Kept s)
          (on_message X max_body_size (seen_visit X w) m s)
          (on_message_in_time X w max_body_size t s)
  on_message-Answered t m s drops = go (
      if ltb max_body_size (length w.visit.request.body)
      then err 413
      else w.visit.decode w.visit.request.body)
    where
      go :
          (read : Result ℕ (JsonRpcRequest Value))
          → Answered
              (Kept s)
              (elim read as (λ _. Response (Body Value) × MevProxyState Value) [
                | err status ↦ (bare status, s)
                | ok request ↦ (json_answer (m request s).0, (m request s).1)
              ])
              (elim read as (λ _. Option (Response (Body Value)) × MevProxyState Value) [
                | err status ↦ (some (bare status), s)
                | ok request ↦ (map_some json_answer (t request s).0, (t request s).1)
              ])
      go (err status) = inl refl
      go (ok request) = elim (drops request s) [
        | inl same ↦ inl (ap (λ r. (map_some json_answer r.0, r.1)) same)
        | inr (dropped, q) ↦ inr (ap (map_some json_answer) dropped, q)
      ]

  respond-Answered :
      (e : Endpoint) (s : MevProxyState Value)
      → Answered
          (Kept s)
          (respond X max_body_size e (seen_visit X w) s)
          (respond_in_time X w max_body_size e s)
  unfolding respond respond_in_time
  respond-Answered root s = inl refl
  respond-Answered rpc s = on_message-Answered _ _ s rpc_in_time-Drops
  respond-Answered rpc_flashbots s =
      on_message-Answered _ _ s (λ request. flashbots_in_time-Drops X (arrival X w request))

  -- Charged as in the state that a request would leave that is done, and the relay's breaker told
  -- nothing.
  abbrev pub DroppedFrom : Service Value → Service Value → Service Value → Type 0
  DroppedFrom s done s' =
      (s'.rate_limiter ≡ done.rate_limiter) × Kept s.mev_state done.mev_state s'.mev_state

  serve_at-Answered :
      (m : Matched) (s : Service Value)
      → let done = serve_at X max_body_size m (seen_visit X w) s in
        Answered (DroppedFrom s) done (serve_at_in_time X w max_body_size m s)
  unfolding serve_at serve_at_in_time rate_limited rate_limit_middleware
  serve_at-Answered wrong_method s =
      let charged =
        check_rate_limit s.rate_limiter (get_request_identifier w.visit.request.peer) w.visit.now in
      elim (Bool-cases charged.1) [
        | inl within ↦ inl (ground (arith, within))
        | inr over ↦ inl (ground (arith, over))
      ]
  serve_at-Answered fallback s = inl refl
  serve_at-Answered (endpoint e) s =
      let charged =
        check_rate_limit s.rate_limiter (get_request_identifier w.visit.request.peer) w.visit.now in
      elim (Bool-cases charged.1) [
        | inl within ↦ elim (respond-Answered e s.mev_state) [
          | inl same ↦ inl (ground (arith, within, same))
          | inr (dropped, kept) ↦ inr (ground (arith, within, dropped, kept.0, kept.1))
        ]
        | inr over ↦ inl (ground (arith, over))
      ]

  -- Under the timeout, a request of the public listener that the limit on concurrent requests does
  -- not let in by the time the timeout's timer fires is answered by the timeout's error, through the
  -- layers that set the headers, and changes nothing. One that is let in by then is answered exactly as
  -- without the timeout, and leaves the same state, where the node's answers are what the HTTP client
  -- makes of them; or it is dropped, and answered by the same error. A request that is let in and
  -- dropped has been charged by the limiter of the listener and by the one of the methods as one
  -- that is done, and has told the relay's breaker no outcome: the breaker is as the request found
  -- it, or as it is once the submission has asked it.
  pub serve_in_time-DroppedFrom :
      (s : Service Value)
      → let done = serve X max_body_size (seen_visit X w) s in
        let t = serve_in_time X w max_body_size s in
        let kept_out = is_kept_out X w max_body_size in
        ((kept_out ≡ true) × (t ≡ (public_response none, s)))
        ⊎ ((kept_out ≡ false)
            × ((t ≡ (public_response (some done.0), done.1))
                ⊎ ((t.0 ≡ public_response none) × DroppedFrom s done.1 t.1)))
  unfolding serve serve_in_time
  serve_in_time-DroppedFrom s = elim (Bool-cases (is_kept_out X w max_body_size)) [
    | inl out ↦ inl (out, rw (serve_in_time, out) refl)
    | inr let_in ↦ inr (
      let_in,
      elim (serve_at-Answered (matched w.visit.request.method w.visit.request.path) s) [
        | inl same ↦ inl (rw (serve_in_time, let_in) (ap (λ r. (public_response r.0, r.1)) same))
        | inr (dropped, q) ↦ inr (rw (serve_in_time, let_in) (ap public_response dropped, q))
      ],
    )
  ]
