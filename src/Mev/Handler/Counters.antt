-- ===== src/Mev/Handler/Counters.antt =====
-- What the counters say after a history of requests to the two endpoints.
use torpc.Common.{
  ℕ, suc, ◌+◌, ◌<◌, ◌^◌, ◌≡◌, arith, List, [], ◌∷◌, All, u64, count_if, if◌then◌else◌, Bool-cases,
  inl, inr,
}
use torpc.External.{External}
use torpc.Rpc.{JsonRpcRequest, JsonRpcResponse}
use torpc.Errors.{ProxyResult}
use torpc.Security.{
  SecurityMetrics, increment_rate_limit_hits, increment_invalid_methods, increment_blocked_requests,
}
use torpc.Proxy.{Env, handle_rpc}
use torpc.Proxy.Effects.{M}
use torpc.Proxy.Accounts.{unlisted, limited, tally, Accounted, SparesMetrics, handle_rpc-Accounted}
use torpc.Mev.Handler.{MevProxyState, MevEnv, on_node, handle_flashbots_with_mev}
use torpc.Mev.Handler.Accounts.{metrics_of, handle_flashbots_with_mev-Accounted}

-- So many requests of each kind were refused: for their method, and for want of budget.
abbrev pub Tallied : ℕ → ℕ → SecurityMetrics → SecurityMetrics → Type 0
Tallied refused over m m' =
    (m'.invalid_methods ≡ u64 (m.invalid_methods + refused))
    × (m'.blocked_requests_total ≡ u64 (m.blocked_requests_total + refused))
    × (m'.rate_limit_hits ≡ u64 (m.rate_limit_hits + over))
    × (m'.oversized_requests ≡ m.oversized_requests)
    × (m'.suspicious_patterns ≡ m.suspicious_patterns)

-- The counters that the handlers increment are u64s.
abbrev pub AreWords : SecurityMetrics → Type 0
AreWords m =
    (m.invalid_methods < 2 ^ 64)
    × (m.blocked_requests_total < 2 ^ 64)
    × (m.rate_limit_hits < 2 ^ 64)

tally-AreWords :
    {A : Type 0} (r : ProxyResult A) (m m1 : SecurityMetrics)
    → m1 ≡ tally r m
    → AreWords m
    → AreWords m1
unfolding increment_rate_limit_hits increment_invalid_methods increment_blocked_requests
tally-AreWords r m m1 e h = ground (arith, e)

once-Tallied :
    {A : Type 0} (r : ProxyResult A) (refused over : ℕ) (m m1 m2 : SecurityMetrics)
    → m1 ≡ tally r m
    → Tallied refused over m1 m2
    → Tallied
        (if unlisted r then suc refused else refused)
        (if limited r then suc over else over)
        m
        m2
unfolding increment_rate_limit_hits increment_invalid_methods increment_blocked_requests
once-Tallied r refused over m m1 m2 e h = elim (Bool-cases (unlisted r)) [
  | inl u ↦ elim (Bool-cases (limited r)) [ inl l ↦ ground (arith, e) | inr l ↦ ground (arith, e) ]
  | inr u ↦ elim (Bool-cases (limited r)) [ inl l ↦ ground (arith, e) | inr l ↦ ground (arith, e) ]
]

module _ (X : External) where
  open X use {Value}

  -- A request to one of the two endpoints.
  pub data Asked : Type 0 where
    to_rpc : Env Value → JsonRpcRequest Value → Asked
    to_flashbots : MevEnv Value → JsonRpcRequest Value → Asked

  abbrev pub handled : Asked → M (MevProxyState Value) (JsonRpcResponse Value)
  handled (to_rpc env request) = on_node X (handle_rpc X env request)
  handled (to_flashbots env request) = handle_flashbots_with_mev X env request

  -- The results of the requests, one after another, and the state after them.
  unfoldable pub results :
      List Asked → MevProxyState Value → List (ProxyResult (JsonRpcResponse Value))
  results [] s = []
  results (a ∷ rs) s = (handled a s).0 ∷ results rs (handled a s).1

  unfoldable pub served : List Asked → MevProxyState Value → MevProxyState Value
  served [] s = s
  served (a ∷ rs) s = served rs (handled a s).1

  -- No other task counts anything meanwhile.
  abbrev pub Alone : Asked → Type 0
  Alone (to_rpc env request) = SparesMetrics env.before_gate × SparesMetrics env.others
  Alone (to_flashbots env request) =
      SparesMetrics env.node.before_gate × SparesMetrics env.node.others

  handled-Accounted : (a : Asked) → Alone a → Accounted (metrics_of X) (handled a)
  handled-Accounted (to_rpc env request) (p, q) s =
      handle_rpc-Accounted X env request p q s.base_state
  handled-Accounted (to_flashbots env request) (p, q) s =
      handle_flashbots_with_mev-Accounted X env request p q s

  -- After requests to the two endpoints, the counters of refused methods and of blocked requests have
  -- grown by the number of requests refused for their method, the counter of hits of the rate limit
  -- by the number refused for want of budget, each modulo 2 ^ 64, and the two other counters are as
  -- they were; no other task counts meanwhile, and the counters are u64s at the start.
  pub served-Tallied :
      (rs : List Asked) (s : MevProxyState Value)
      → All Alone rs
      → AreWords (metrics_of X s)
      → Tallied
          (count_if unlisted (results rs s))
          (count_if limited (results rs s))
          (metrics_of X s)
          (metrics_of X (served rs s))
  unfolding results served
  served-Tallied [] s h w = omega arith
  served-Tallied (a ∷ rs) s (ha, h) w =
      let once = handled-Accounted a ha s in
      let s1 = (handled a s).1 in
      let words = tally-AreWords (handled a s).0 (metrics_of X s) (metrics_of X s1) once w in
      once-Tallied (handled a s).0 (count_if unlisted (results rs s1))
        (count_if limited (results rs s1)) (metrics_of X s) (metrics_of X s1)
        (metrics_of X (served rs s1)) once (served-Tallied rs s1 h words)
