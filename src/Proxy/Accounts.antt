-- ===== src/Proxy/Accounts.antt =====
-- What the handlers count: the refusals that the counters of src/security.rs stand for.
use torpc.Common.{
  ◌≡◌, refl, ◌∙◌, ap, arith, Bool, true, false, Result, ok, err, map_err, if◌then◌else◌, String, ℕ,
}
use torpc.External.{External}
use torpc.Rpc.{JsonRpcRequest, validate}
use torpc.Errors.{ProxyError, ProxyResult, invalid_request}
use torpc.Security.{
  SecurityMetrics, increment_rate_limit_hits, increment_invalid_methods, increment_blocked_requests,
}
use torpc.Breaker.{can_proceed}
use torpc.Proxy.{
  ProxyState, Exchange, unreachable, replied, Sent, Node, Env, check_method,
  check_write_method_rate_limit, settle, proxy_to_geth, admit, handle_rpc, proxy_to_flashbots,
  handle_flashbots,
}
use torpc.Proxy.Effects.{M, resume, lift, change}

-- The refusal of a method that is not on the list.
abbrev pub unlisted : {A : Type 0} → ProxyResult A → Bool
unlisted (ok a) = false
unlisted (err (ProxyError.method_not_allowed m)) = true
unlisted (err _) = false

-- The refusal for want of budget.
abbrev pub limited : {A : Type 0} → ProxyResult A → Bool
limited (ok a) = false
limited (err ProxyError.rate_limit_exceeded) = true
limited (err _) = false

-- A result that no counter is for.
abbrev pub Uncounted : {A : Type 0} → ProxyResult A → Type 0
Uncounted r = (unlisted r ≡ false) × (limited r ≡ false)

-- The counters after a request that had this result.
abbrev pub tally : {A : Type 0} → ProxyResult A → SecurityMetrics → SecurityMetrics
tally r m =
    let refused =
      if unlisted r then increment_blocked_requests (increment_invalid_methods m) else m in
    if limited r then increment_rate_limit_hits refused else refused

pub Uncounted-tally :
    {A : Type 0} (r : ProxyResult A) (m : SecurityMetrics) → Uncounted r → tally r m ≡ m
Uncounted-tally r m (u, l) = ground (arith, u, l)

module _ {S : Type 0} (part : S → SecurityMetrics) where
  -- A step that counts what it refuses, and no more.
  abbrev pub Accounted : {A : Type 0} → M S A → Type 0
  Accounted k = (s : S) → part (k s).1 ≡ tally (k s).0 (part s)

  resumed :
      {A B : Type 0} (s : S) (r : ProxyResult A × S) (f : A → M S B)
      → part r.1 ≡ tally r.0 (part s)
      → ((x : A) → Accounted (f x))
      → part (resume r f).1 ≡ tally (resume r f).0 (part s)
  resumed s (ok x, t) f h k = k x t ∙ ap (tally (f x t).0) h
  resumed s (err (ProxyError.method_not_allowed m), t) f h k = h
  resumed s (err ProxyError.rate_limit_exceeded, t) f h k = h
  resumed s (err (ProxyError.invalid_request m), t) f h k = h
  resumed s (err (ProxyError.upstream_error m), t) f h k = h
  resumed s (err (ProxyError.json_error m), t) f h k = h
  resumed s (err (ProxyError.http_error m), t) f h k = h
  resumed s (err (ProxyError.internal_error m), t) f h k = h
  resumed s (err (ProxyError.mev_relay_error m), t) f h k = h
  resumed s (err (ProxyError.bundle_simulation_error m), t) f h k = h
  resumed s (err ProxyError.flashbots_auth_error, t) f h k = h

  pub bind-Accounted :
      {A B : Type 0} (m : M S A) (f : A → M S B)
      → Accounted m
      → ((x : A) → Accounted (f x))
      → Accounted (λ s. resume (m s) f)
  bind-Accounted m f h k s = resumed s (m s) f (h s) k

  pub lift-Accounted : {A : Type 0} (r : ProxyResult A) → Uncounted r → Accounted (lift r)
  lift-Accounted r u s = ground (arith, Uncounted-tally r (part s) u)

-- A task that leaves the counters alone.
abbrev pub SparesMetrics : (ProxyState → ProxyState) → Type 0
SparesMetrics f = (b : ProxyState) → (f b).metrics ≡ b.metrics

check_method-Accounted :
    (b : ProxyState) (method : String)
    → (check_method b method).1.metrics ≡ tally (check_method b method).0 b.metrics
unfolding check_method
check_method-Accounted b method = ground arith

pub check_write-Accounted :
    (b : ProxyState) (method : String) (now : ℕ)
    → let r = check_write_method_rate_limit b method now in r.1.metrics ≡ tally r.0 b.metrics
unfolding check_write_method_rate_limit
check_write-Accounted b method now = ground arith

module _ (X : External) where
  open X use {Value}

  abbrev node_metrics : Node Value → SecurityMetrics
  node_metrics n = n.base.metrics

  settle-Uncounted :
      (x : Exchange Value) (b : ProxyState) (now : ℕ)
      → let r = settle X x b now in (r.1.metrics ≡ b.metrics) × Uncounted r.0
  unfolding settle
  settle-Uncounted (unreachable e) b now = (refl, (refl, refl))
  settle-Uncounted (replied status text json) b now = ground arith

  module _ (env : Env Value) (request : JsonRpcRequest Value)
      (before : SparesMetrics env.before_gate) (after : SparesMetrics env.others) where
    pub proxy_to_geth-Accounted : Accounted node_metrics (proxy_to_geth X env request)
    unfolding proxy_to_geth
    proxy_to_geth-Accounted n =
        let here = env.before_gate n.base in
        let gated = record here {
          geth_circuit = (can_proceed here.geth_circuit env.gate_time).0;
        } in
        let sent : Sent Value = record { url = here.geth_url; request = request } in
        let (same, uncounted) =
          settle-Uncounted (env.geth sent) (env.others gated) env.outcome_time in
        ground (arith, before n.base, after gated, same, uncounted)

    validate-Accounted :
        (r : Result String (Unit {0})) → Accounted node_metrics (lift (map_err invalid_request r))
    validate-Accounted (ok u) n = refl
    validate-Accounted (err e) n = refl

    admit-Accounted : Accounted node_metrics (admit X env request)
    unfolding admit
    admit-Accounted =
        bind-Accounted node_metrics (lift (map_err invalid_request (validate request))) _
          (validate-Accounted (validate request))
          (λ u.
            bind-Accounted node_metrics
              (change (λ n. n.base) (λ n b. record n { base = b })
                (λ b. check_method b request.method))
              _ (λ n. check_method-Accounted n.base request.method)
              (λ u n. check_write-Accounted n.base request.method env.limit_time))

    pub handle_rpc-Accounted : Accounted node_metrics (handle_rpc X env request)
    unfolding handle_rpc
    handle_rpc-Accounted =
        bind-Accounted node_metrics (admit X env request) (λ u. proxy_to_geth X env request)
          admit-Accounted (λ u. proxy_to_geth-Accounted)

    forward-Accounted : Accounted node_metrics (proxy_to_flashbots X env request)
    unfolding proxy_to_flashbots
    forward-Accounted n = ground (arith, proxy_to_geth-Accounted n)

    pub handle_flashbots-Accounted : Accounted node_metrics (handle_flashbots X env request)
    unfolding handle_flashbots
    handle_flashbots-Accounted =
        bind-Accounted node_metrics (admit X env request) _ admit-Accounted
          (λ u n. ground (arith, forward-Accounted n, proxy_to_geth-Accounted n))
