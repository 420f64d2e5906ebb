-- ===== src/Mev/Handler/Charges.antt =====
-- What the MEV endpoint without a relay client charges for a request to write.
use mathlib.Core.Path.{subst}
use torpc.Common.{
  ℕ, ◌+◌, ◌<◌, ◌≤◌, ◌≡◌, refl, ap, ◌∙◌, ◌⊎◌, inl, inr, arith, String, Bool, true, false, not, ◌&&◌,
  Option, none, some, ok, err, lookup, eq_iff, eq_refl, if◌then◌else◌, Bool-cases,
}
use torpc.External.{External}
use torpc.Rpc.{JsonRpcRequest, validate}
use torpc.Errors.{rate_limit_exceeded}
use torpc.Limiter.{RateLimitConfig, Bucket, RateLimiter, charge, check_rate_limit}
use torpc.Limiter.Buckets.{lookup-check, check-verdict, check-config}
use torpc.Breaker.{can_proceed}
use torpc.Whitelist.{contains, is_method_allowed}
use torpc.Proxy.{
  ProxyState, Exchange, unreachable, replied, Sent, Node, Env, write_methods, check_method,
  check_write_method_rate_limit, admit, settle, proxy_to_geth, proxy_to_flashbots, handle_flashbots,
}
use torpc.Proxy.Accounts.{limited}
use torpc.Mev.Handler.{MevProxyState, MevEnv, dispatch, handle_flashbots_with_mev}

-- Two charges at one instant, the second where the first is allowed.
abbrev pub twice : RateLimitConfig → Option Bucket → ℕ → Bucket × Bool
twice c o now =
    let (b, allowed) = charge c o now in if allowed then charge c (some b) now else (b, false)

-- A task that leaves the limiter for writes alone.
abbrev pub SparesLimiter : (ProxyState → ProxyState) → Type 0
SparesLimiter f = (b : ProxyState) → (f b).write_method_limiter ≡ b.write_method_limiter

abbrev charged : RateLimiter → String → ℕ → RateLimiter × Bool
charged l method now = check_rate_limit l method now

raw_listed : is_method_allowed "eth_sendRawTransaction" ≡ true
unfolding is_method_allowed contains
raw_listed = refl

bundle_listed : is_method_allowed "eth_sendBundle" ≡ true
unfolding is_method_allowed contains
bundle_listed = refl

written-either :
    (method : String)
    → contains method write_methods ≡ true
    → ("eth_sendRawTransaction" ≡ method) ⊎ ("eth_sendBundle" ≡ method)
unfolding contains
written-either method h =
    ground (arith, eq_iff "eth_sendRawTransaction" method, eq_iff "eth_sendBundle" method)

written-listed :
    (method : String) → contains method write_methods ≡ true → is_method_allowed method ≡ true
written-listed method h = elim (written-either method h) [
  | inl raw ↦ subst (λ m. is_method_allowed m ≡ true) raw raw_listed
  | inr bundle ↦ subst (λ m. is_method_allowed m ≡ true) bundle bundle_listed
]

module _ (X : External) where
  open X use {Value}

  pub settle-limiter :
      (x : Exchange Value) (b : ProxyState) (now : ℕ)
      → ((settle X x b now).1.write_method_limiter ≡ b.write_method_limiter)
        × (limited (settle X x b now).0 ≡ false)
  unfolding settle
  settle-limiter (unreachable e) b now = (refl, refl)
  settle-limiter (replied status text json) b now = ground arith

  proxy_to_geth-limiter :
      (env : Env Value) (request : JsonRpcRequest Value) (n : Node Value)
      → SparesLimiter env.before_gate
      → SparesLimiter env.others
      → let r = proxy_to_geth X env request n in
        (r.1.base.write_method_limiter ≡ n.base.write_method_limiter) × (limited r.0 ≡ false)
  unfolding proxy_to_geth
  proxy_to_geth-limiter env request n p q =
      let here = env.before_gate n.base in
      let gated = record here { geth_circuit = (can_proceed here.geth_circuit env.gate_time).0 } in
      let sent : Sent Value = record { url = here.geth_url; request = request } in
      ground (
        arith,
        p n.base,
        q gated,
        settle-limiter (env.geth sent) (env.others gated) env.outcome_time,
      )

  proxy_to_flashbots-limiter :
      (env : Env Value) (request : JsonRpcRequest Value) (n : Node Value)
      → SparesLimiter env.before_gate
      → SparesLimiter env.others
      → let r = proxy_to_flashbots X env request n in
        (r.1.base.write_method_limiter ≡ n.base.write_method_limiter) × (limited r.0 ≡ false)
  unfolding proxy_to_flashbots
  proxy_to_flashbots-limiter env request n p q =
      ground (arith, proxy_to_geth-limiter env request n p q)

  admit-limiter :
      (env : Env Value) (request : JsonRpcRequest Value) (n : Node Value)
      → validate request ≡ ok tt
      → contains request.method write_methods ≡ true
      → let r = admit X env request n in
        let l = charged n.base.write_method_limiter request.method env.limit_time in
        (r.1.base.write_method_limiter ≡ l.0)
        × (((l.1 ≡ true) × (r.0 ≡ ok tt)) ⊎ ((l.1 ≡ false) × (r.0 ≡ err rate_limit_exceeded)))
  unfolding admit check_method check_write_method_rate_limit
  admit-limiter env request n v w = ground (arith, written-listed request.method w)

  handle_flashbots-limiter :
      (env : Env Value) (request : JsonRpcRequest Value) (n : Node Value)
      → validate request ≡ ok tt
      → contains request.method write_methods ≡ true
      → SparesLimiter env.before_gate
      → SparesLimiter env.others
      → let r = handle_flashbots X env request n in
        let l = charged n.base.write_method_limiter request.method env.limit_time in
        (r.1.base.write_method_limiter ≡ l.0) × (limited r.0 ≡ not l.1)
  unfolding handle_flashbots
  handle_flashbots-limiter env request n v w p q =
      let here = (admit X env request n).1 in
      let (same, verdict) = admit-limiter env request n v w in
      elim verdict [
        | inl (allowed, passed) ↦ ground (
          arith,
          proxy_to_flashbots-limiter env request here p q,
          proxy_to_geth-limiter env request here p q,
        )
        | inr (refused, raised) ↦ ground arith
      ]

  -- A request to write, well formed, in the window of `width` from `from`, during which no other
  -- task charges the limiter.
  pub record Writes (method : String) (from width : ℕ) (env : MevEnv Value)
      (request : JsonRpcRequest Value) : Type 0 where
    pub valid : validate request ≡ ok tt
    pub names : request.method ≡ method
    pub after_from : from ≤ env.node.limit_time
    pub in_window : env.node.limit_time < from + width
    pub spared_before : SparesLimiter env.node.before_gate
    pub spared_after : SparesLimiter env.node.others

  abbrev pub limiter_of : MevProxyState Value → RateLimiter
  limiter_of s = s.base_state.base.write_method_limiter

  -- Two charges for one request.
  handle-limiter :
      (env : MevEnv Value) (request : JsonRpcRequest Value) (s : MevProxyState Value)
      (from width : ℕ)
      → s.mev_client ≡ none
      → contains request.method write_methods ≡ true
      → Writes request.method from width env request
      → let r = handle_flashbots_with_mev X env request s in
        let l1 = charged (limiter_of s) request.method env.node.limit_time in
        let l2 = charged l1.0 request.method env.node.limit_time in
        (r.1.mev_client ≡ none)
        × (limiter_of r.1 ≡ (if l1.1 then l2.0 else l1.0))
        × (limited r.0 ≡ not (l1.1 && l2.1))
  unfolding handle_flashbots_with_mev dispatch check_write_method_rate_limit
  handle-limiter env request s from width c w h =
      let l1 = charged (limiter_of s) request.method env.node.limit_time in
      let here : Node Value = record s.base_state {
        base = record s.base_state.base { write_method_limiter = l1.0 };
      } in
      elim (Bool-cases l1.1) [
        | inl allowed ↦ ground (
          arith,
          c,
          handle_flashbots-limiter env.node request here h.valid w h.spared_before h.spared_after,
        )
        | inr refused ↦ ground (arith, c)
      ]

  charged-twice :
      (l : RateLimiter) (method : String) (now : ℕ)
      → let l1 = charged l method now in
        let l2 = charged l1.0 method now in
        let t = twice l.config (lookup method l.requests) now in
        let l' = if l1.1 then l2.0 else l1.0 in
        (lookup method l'.requests ≡ some t.0) × ((l1.1 && l2.1) ≡ t.1) × (l'.config ≡ l.config)
  charged-twice l method now =
      let l1 = charged l method now in
      ground (
        arith,
        lookup-check l method now method,
        lookup-check l1.0 method now method,
        check-verdict l method now,
        check-verdict l1.0 method now,
        check-config l method now,
        check-config l1.0 method now,
        eq_refl method,
      )

  -- What a request to write does to the bucket of its method, and what it is answered.
  pub record Charges (env : MevEnv Value) (request : JsonRpcRequest Value) (s : MevProxyState Value)
      (o : Option Bucket) (method : String) : Type 0 where
    pub alone : (handle_flashbots_with_mev X env request s).1.mev_client ≡ none
    pub bucket :
        lookup method (limiter_of (handle_flashbots_with_mev X env request s).1).requests
        ≡ some (twice (limiter_of s).config o env.node.limit_time).0
    pub settings :
        (limiter_of (handle_flashbots_with_mev X env request s).1).config ≡ (limiter_of s).config
    pub verdict :
        limited (handle_flashbots_with_mev X env request s).0
        ≡ not (twice (limiter_of s).config o env.node.limit_time).1

  Charges-own :
      (env : MevEnv Value) (request : JsonRpcRequest Value) (s : MevProxyState Value)
      (o : Option Bucket) (from width : ℕ)
      → s.mev_client ≡ none
      → contains request.method write_methods ≡ true
      → lookup request.method (limiter_of s).requests ≡ o
      → Writes request.method from width env request
      → Charges env request s o request.method
  Charges-own env request s o from width c w l h =
      let (alone, moved, verdict) = handle-limiter env request s from width c w h in
      let (found, both, same) = charged-twice (limiter_of s) request.method env.node.limit_time in
      record {
        alone = alone;
        bucket =
            ap (λ r. lookup request.method r.requests) moved
            ∙ found
            ∙ ap (λ o. some (twice (limiter_of s).config o env.node.limit_time).0) l;
        settings = ap (λ r. r.config) moved ∙ same;
        verdict =
            verdict
            ∙ ap not both
            ∙ ap (λ o. not (twice (limiter_of s).config o env.node.limit_time).1) l;
      }

  pub Charges-named :
      (env : MevEnv Value) (request : JsonRpcRequest Value) (s : MevProxyState Value)
      (o : Option Bucket) (method : String) (from width : ℕ)
      → s.mev_client ≡ none
      → contains method write_methods ≡ true
      → lookup method (limiter_of s).requests ≡ o
      → Writes method from width env request
      → Charges env request s o method
  Charges-named env request s o method from width c w l h =
      subst
        (λ m.
          contains m write_methods ≡ true
          → lookup m (limiter_of s).requests ≡ o
          → Writes m from width env request
          → Charges env request s o m)
        h.names (Charges-own env request s o from width c) w l h
