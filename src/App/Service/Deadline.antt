-- ===== src/App/Service/Deadline.antt =====
-- The public listener of src/app.rs under the timeout that its configuration sets: the routes and
-- the limiter of App/Service.antt, with the time that a request takes at the node and at the relay.
-- The middleware's clock starts before the limit on concurrent requests lets the request in, and
-- before the limiter. The package tower keeps that limit: `admitted_at` is when it lets the
-- request in, if it does.
pub mod Charged
use torpc.Common.{
  Bool, true, ◌+◌, ℕ, String, ◌≡◌, ◌⊎◌, refl, ap, inl, inr, arith, Option, none, some, Result, ok,
  err, ltb, length, if◌then◌else◌, Result-split, Result-cases,
}
use mathlib.Core.Option.{map as map_some}
use torpc.External.{External}
use torpc.Rpc.{JsonRpcRequest, JsonRpcResponse}
use torpc.Errors.{ProxyResult}
use torpc.Limiter.{rate_limit_middleware}
use torpc.Breaker.{CircuitBreaker}
use torpc.Proxy.{Sent, Node, Env, admit, proxy_to_geth, handle_rpc}
use torpc.Proxy.Effects.{M}
use torpc.Proxy.Effects.Timed.{
  Timed, inside, Drops, inside-Drops, followed_by, followed_by-Drops, whole,
}
use torpc.Proxy.Timeout.{fires, proxy_in_time, handle_in_time}
use torpc.Mev.Client.{RelayCall}
use torpc.Mev.Handler.{MevProxyState, on_node, block_req, handle_flashbots_with_mev}
use torpc.Mev.Handler.Timeout.{Arrival, pending, seen_env, flashbots_in_time}
use torpc.Security.Middleware.{Response, json_rpc_timeout_middleware}
use torpc.App.Service.{
  Service, Endpoint, root, rpc, rpc_flashbots, Matched, endpoint, wrong_method, fallback, matched,
  Visit, Body, rate_limited, bare, json_answer, on_message, respond, serve_at, serve,
  public_response,
}

-- A visit, when it comes, how long it may take, when it is let in, and the times of the node and of
-- the relay.
pub record Slow (Value : Type 0) : Type 0 where
  pub visit : Visit Value
  pub started : ℕ
  pub limit : ℕ
  pub admitted_at : Option ℕ
  pub answers_at : Sent Value → Option ℕ
  pub client_error : String
  pub takes : ℕ → RelayCall → ℕ

module _ (X : External) (w : Slow (External.Value X)) where
  open X use {Value}

  abbrev pub arrival : JsonRpcRequest Value → Arrival Value
  arrival request = record {
    env = w.visit.handler;
    request = request;
    started = w.started;
    limit = w.limit;
    answers_at = w.answers_at;
    timeout_error = w.client_error;
    takes = w.takes;
  }

  -- The visit with the node's answers as the client sees them.
  abbrev pub seen_visit : Visit Value
  seen_visit = record w.visit { handler = seen_env X (arrival (block_req X)) }

  abbrev pub rpc_in_time :
      JsonRpcRequest Value → Timed (MevProxyState Value) (JsonRpcResponse Value)
  rpc_in_time request =
      inside (λ s. s.base_state) (λ s n. record s { base_state = n })
        (handle_in_time X w.limit (pending X (arrival request) request))

  module _ (max_body_size : ℕ) where
    abbrev pub on_message_in_time :
        (JsonRpcRequest Value → Timed (MevProxyState Value) (JsonRpcResponse Value))
        → MevProxyState Value
        → Option (Response (Body Value)) × MevProxyState Value
    on_message_in_time handle s =
        elim (if ltb max_body_size (length w.visit.request.body)
          then err 413
          else w.visit.decode w.visit.request.body) [
            | err status ↦ (some (bare status), s)
            | ok request ↦ let r = handle request s in (map_some json_answer r.0, r.1)
          ]

    unfoldable pub respond_in_time :
        Endpoint → MevProxyState Value → Option (Response (Body Value)) × MevProxyState Value
    unfolding respond
    respond_in_time root s = let r = respond X max_body_size root w.visit s in (some r.0, r.1)
    respond_in_time rpc s = on_message_in_time rpc_in_time s
    respond_in_time rpc_flashbots s =
        on_message_in_time (λ request. flashbots_in_time X (arrival request)) s

    unfoldable pub serve_at_in_time :
        Matched → Service Value → Option (Response (Body Value)) × Service Value
    unfolding rate_limited
    serve_at_in_time (endpoint e) s =
        rate_limited (λ status. some (bare status)) w.visit (respond_in_time e s.mev_state) s
    serve_at_in_time wrong_method s =
        rate_limited (λ status. some (bare status)) w.visit (some (bare 405), s.mev_state) s
    serve_at_in_time fallback s = (some (w.visit.files w.visit.request), s)

    -- Whether the middleware's timer fires before the visit is let in.
    abbrev pub is_kept_out : Bool
    is_kept_out = elim w.admitted_at [
      | none ↦ true
      | some at ↦ ltb (fires (w.started + w.limit)) at
    ]

    -- The response that leaves the listener, and the state.
    unfoldable pub serve_in_time : Service Value → Response (Body Value) × Service Value
    serve_in_time s =
        let r = serve_at_in_time (matched w.visit.request.method w.visit.request.path) s in
        if is_kept_out then (public_response none, s) else (public_response r.0, r.1)
