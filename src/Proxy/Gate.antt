-- ===== src/Proxy/Gate.antt =====
-- The checks that both handlers begin with: what they establish and what they leave alone.
use torpc.Common.{ℕ, ◌≡◌, String, true, arith, ok}
use torpc.External.{External}
use torpc.Rpc.{JsonRpcRequest, validate}
use torpc.Limiter.{check_rate_limit}
use torpc.Whitelist.{contains, is_method_allowed}
use torpc.Proxy.{
  ProxyState, write_methods, Node, Env, check_write_method_rate_limit, check_method, admit,
}

-- What the limiter for write methods says of a method.
abbrev pub Budgeted : ProxyState → String → ℕ → Type 0
Budgeted state method now =
    contains method write_methods ≡ true
    → (check_rate_limit state.write_method_limiter method now).1 ≡ true

module _ (X : External) where
  open X use {Value}

  -- A request that passes is well formed, on the list of methods, and within the write budget.
  pub record Passes (env : Env Value) (request : JsonRpcRequest Value) (n : Node Value)
      : Type 0 where
    pub valid : validate request ≡ ok tt
    pub listed : is_method_allowed request.method ≡ true
    pub budgeted : Budgeted n.base request.method env.limit_time

  pub admit-Passes :
      (env : Env Value) (request : JsonRpcRequest Value) (n : Node Value)
      → (admit X env request n).0 ≡ ok tt
      → Passes env request n
  unfolding admit check_method check_write_method_rate_limit
  admit-Passes env request n h = ground arith

  pub admit-wire :
      (env : Env Value) (request : JsonRpcRequest Value) (n : Node Value)
      → (admit X env request n).1.wire ≡ n.wire
  unfolding admit
  admit-wire env request n = ground arith
