-- ===== src/Proxy/Privacy.antt =====
-- What a caller can learn of the upstream node's failures.
use torpc.Common.{ℕ, ◌≡◌, refl, ap, String, false, arith, Result}
use mathlib.Core.Path.{fun_ext}
use torpc.Breaker.{can_proceed}
use torpc.Proxy.Effects.{M, resume}
use torpc.External.{External}
use torpc.Rpc.{JsonRpcRequest, JsonRpcResponse}
use torpc.Proxy.{
  ProxyState, Exchange, unreachable, replied, Sent, Node, Env, settle, proxy_to_geth, handle_rpc,
  admit,
}

module _ (X : External) where
  open X use {Value, is_success}

  -- Two answers that differ in no more than what a caller must not see: the client's error text,
  -- or the body of an answer that is no success.
  pub data Alike : Exchange Value → Exchange Value → Type 0 where
    both_unreachable : (e f : String) → Alike (unreachable e) (unreachable f)
    both_refused :
        (status : ℕ) (t u : Result String String) (j k : Result String (JsonRpcResponse Value))
        → is_success status ≡ false
        → Alike (replied status t j) (replied status u k)
    same : (x : Exchange Value) → Alike x x

  settle-Alike :
      {x y : Exchange Value} (b : ProxyState) (now : ℕ)
      → Alike x y
      → settle X x b now ≡ settle X y b now
  unfolding settle
  settle-Alike b now (both_unreachable e f) = refl
  settle-Alike b now (both_refused status t u j k no_success) = ground arith
  settle-Alike b now (same x) = refl

  module _ (env : Env Value) (geth : Sent Value → Exchange Value) (request : JsonRpcRequest Value)
      (alike : (s : Sent Value) → Alike (env.geth s) (geth s)) where
    proxy_to_geth-private :
        (n : Node Value)
        → proxy_to_geth X env request n ≡ proxy_to_geth X (record env { geth = geth }) request n
    unfolding proxy_to_geth
    proxy_to_geth-private n = ground (
      arith,
      settle-Alike
          (env.others (record (env.before_gate n.base) {
            geth_circuit = (can_proceed (env.before_gate n.base).geth_circuit env.gate_time).0;
          }))
          env.outcome_time
          (alike (record { url = (env.before_gate n.base).geth_url; request = request })),
    )

  -- Where the node cannot be reached, or answers with a status that is no success, neither the text
  -- of the client's error nor the body of the node's answer has any influence on what the caller
  -- is told or on the state that is left.
  pub handle_rpc-private :
      (env : Env Value) (geth : Sent Value → Exchange Value) (request : JsonRpcRequest Value)
      (n : Node Value)
      → ((s : Sent Value) → Alike (env.geth s) (geth s))
      → handle_rpc X env request n ≡ handle_rpc X (record env { geth = geth }) request n
  unfolding handle_rpc admit
  handle_rpc-private env geth request n alike =
      ap (λ (k : M (Node Value) (JsonRpcResponse Value)). resume (admit X env request n) (λ _. k))
        (fun_ext (proxy_to_geth-private env geth request alike))
