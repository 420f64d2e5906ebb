-- ===== src/Proxy/Rejects.antt =====
-- What a refused request leaves behind.
use torpc.Common.{
  Result-cases, Bool-cases, ◌+◌, ◌≡◌, ◌⊎◌, inl, inr, String, true, false, arith, ok, err, u64,
}
use torpc.External.{External}
use torpc.Rpc.{JsonRpcRequest, validate}
use torpc.Errors.{ProxyError, invalid_request, method_not_allowed, rate_limit_exceeded}
use torpc.Security.{
  increment_rate_limit_hits, increment_invalid_methods, increment_blocked_requests,
}
use torpc.Proxy.Effects.{resume-err}
use torpc.Limiter.{check_rate_limit}
use torpc.Whitelist.{contains, is_method_allowed}
use torpc.Proxy.{
  write_methods, Node, Env, check_write_method_rate_limit, check_method, admit, handle_rpc,
  handle_flashbots,
}

module _ (X : External) where
  open X use {Value}

  abbrev pub Malformed : JsonRpcRequest Value → Node Value → ProxyError → Node Value → Type 0
  Malformed request n e n' =
      (why : String) × (validate request ≡ err why) × (e ≡ invalid_request why) × (n' ≡ n)

  -- Nothing but the counters differs.
  abbrev pub Unlisted : JsonRpcRequest Value → Node Value → ProxyError → Node Value → Type 0
  Unlisted request n e n' =
      (validate request ≡ ok tt)
      × (is_method_allowed request.method ≡ false)
      × (e ≡ method_not_allowed request.method)
      × (n' ≡ record n {
        base = record n.base {
          metrics = record n.base.metrics {
            invalid_methods = u64 (n.base.metrics.invalid_methods + 1);
            blocked_requests_total = u64 (n.base.metrics.blocked_requests_total + 1);
          };
        };
      })

  -- Nothing but the counter and the limiter differs.
  abbrev pub OverBudget :
      Env Value → JsonRpcRequest Value → Node Value → ProxyError → Node Value → Type 0
  OverBudget env request n e n' =
      let charged = check_rate_limit n.base.write_method_limiter request.method env.limit_time in
      (validate request ≡ ok tt)
      × (is_method_allowed request.method ≡ true)
      × (contains request.method write_methods ≡ true)
      × (charged.1 ≡ false)
      × (e ≡ rate_limit_exceeded)
      × (n' ≡ record n {
        base = record n.base {
          write_method_limiter = charged.0;
          metrics = record n.base.metrics {
            rate_limit_hits = u64 (n.base.metrics.rate_limit_hits + 1);
          };
        };
      })

  admit-refusal :
      (env : Env Value) (request : JsonRpcRequest Value) (n : Node Value) (e : ProxyError)
      → (admit X env request n).0 ≡ err e
      → let n' = (admit X env request n).1 in
        Malformed request n e n' ⊎ Unlisted request n e n' ⊎ OverBudget env request n e n'
  unfolding admit check_method check_write_method_rate_limit increment_rate_limit_hits
      increment_invalid_methods increment_blocked_requests
  admit-refusal env request n e h = elim (Result-cases (validate request)) [
    | inl (why, bad) ↦ inl (why, bad, ground arith, ground arith)
    | inr good ↦ elim (Bool-cases (is_method_allowed request.method)) [
      | inl listed ↦ inr (inr (ground arith))
      | inr off ↦ inr (inl (ground arith))
    ]
  ]

  -- The three ways in which a request is refused before the node is asked, with the state that
  -- each leaves: a malformed request leaves everything as it was; a method off the list counts once
  -- as an invalid method and once as a blocked request; a write over its budget counts one hit of
  -- the rate limit and leaves the limiter as its check left it. Nothing else differs, and nothing is
  -- sent. `handle_rpc` and `handle_flashbots` refuse alike.
  pub refusals :
      (env : Env Value) (request : JsonRpcRequest Value) (n : Node Value) (e : ProxyError)
      → (admit X env request n).0 ≡ err e
      → let n' = (admit X env request n).1 in
        (Malformed request n e n' ⊎ Unlisted request n e n' ⊎ OverBudget env request n e n')
        × (handle_rpc X env request n ≡ (err e, n'))
        × (handle_flashbots X env request n ≡ (err e, n'))
  unfolding handle_rpc handle_flashbots
  refusals env request n e h = (
    admit-refusal env request n e h,
    resume-err (admit X env request n) _ h,
    resume-err (admit X env request n) _ h,
  )
