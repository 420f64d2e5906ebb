-- ===== src/Proxy/Wire.antt =====
-- What the handlers send to the upstream node, and where their answers come from.
use torpc.Common.{
  ◌||◌, if◌then◌else◌, sym, ◌∙◌, ℕ, ◌≡◌, ◌⊎◌, inl, inr, ap, neg, String, true, false, [], ◌∷◌, ◌++◌,
  none, arith, Result, ok, err, str_eq, eq_iff, Bool-cases,
}
use torpc.External.{External}
use torpc.Rpc
use torpc.Rpc.{JsonRpcRequest, JsonRpcResponse}
use torpc.Errors.{ProxyError, ProxyResult}
use torpc.Breaker.{can_proceed}
use torpc.Proxy.{
  ProxyState, Exchange, unreachable, replied, Sent, Node, Env, admit, settle, proxy_to_geth,
  proxy_to_flashbots, handle_rpc, handle_flashbots,
}
use torpc.Proxy.Effects.{M, resume, resume-cases}
use torpc.Proxy.Gate.{Passes, admit-Passes, admit-wire}

err≢ok : {A : Type 0} {e : ProxyError} {a : A} → ◌≡◌ {A = ProxyResult A} (err e) (ok a) → ⊥
err≢ok h = cc

module _ (X : External) where
  open X use {Value, is_success}

  -- One request more on the wire: this one.
  abbrev pub SentOne : JsonRpcRequest Value → Node Value → Node Value → Type 0
  SentOne request n n' =
      (url : String) × (n'.wire ≡ n.wire ++ record { url = url; request = request } ∷ [])

  -- An answer that the node gave to this request, with a status of success.
  abbrev pub Answered : Env Value → JsonRpcRequest Value → JsonRpcResponse Value → Type 0
  Answered env request response =
      (url : String) × (status : ℕ) × (text : Result String String) × (env.geth
          (record { url = url; request = request })
        ≡ replied status text (ok response))
      × (is_success status ≡ true)

  module _ (env : Env Value) (request : JsonRpcRequest Value) where
    pub proxy_to_geth-wire :
        (n : Node Value)
        → let n' = (proxy_to_geth X env request n).1 in (n'.wire ≡ n.wire) ⊎ SentOne request n n'
    unfolding proxy_to_geth
    proxy_to_geth-wire n =
        elim (Bool-cases (can_proceed (env.before_gate n.base).geth_circuit env.gate_time).1) [
          | inl go ↦ inr ((env.before_gate n.base).geth_url, ground arith)
          | inr stop ↦ inl (ground arith)
        ]

    settle-ok :
        (x : Exchange Value) (b : ProxyState) (now : ℕ) (response : JsonRpcResponse Value)
        → (settle X x b now).0 ≡ ok response
        → (status : ℕ) × (text : Result String String) × (x ≡ replied status text (ok response))
          × (is_success status ≡ true)
    unfolding settle
    settle-ok (unreachable e) b now response h = cc
    settle-ok (replied status text json) b now response h =
        (status, text, ground arith, ground arith)

    module _ (n : Node Value) (response : JsonRpcResponse Value) where
      proxy_to_geth-stop :
          (can_proceed (env.before_gate n.base).geth_circuit env.gate_time).1 ≡ false
          → (proxy_to_geth X env request n).0 ≡ ok response
          → ⊥
      unfolding proxy_to_geth
      proxy_to_geth-stop stop h = ground arith

      proxy_to_geth-go :
          (can_proceed (env.before_gate n.base).geth_circuit env.gate_time).1 ≡ true
          → let here = env.before_gate n.base in
            let sent : Sent Value = record { url = here.geth_url; request = request } in
            let gated = record here {
              geth_circuit = (can_proceed here.geth_circuit env.gate_time).0;
            } in
            ((proxy_to_geth X env request n).1.wire ≡ n.wire ++ sent ∷ [])
            × ((proxy_to_geth X env request n).0
                ≡ (settle X (env.geth sent) (env.others gated) env.outcome_time).0)
      unfolding proxy_to_geth
      proxy_to_geth-go go = (ground arith, ground arith)

    -- A success was asked of the node, once, and is the answer that the node gave.
    pub proxy_to_geth-ok :
        (n : Node Value) (response : JsonRpcResponse Value)
        → (proxy_to_geth X env request n).0 ≡ ok response
        → SentOne request n (proxy_to_geth X env request n).1 × Answered env request response
    proxy_to_geth-ok n response h =
        elim (Bool-cases (can_proceed (env.before_gate n.base).geth_circuit env.gate_time).1) [
          | inl go ↦
              let here = env.before_gate n.base in
              let (wire, result) = proxy_to_geth-go n response go in
              let (status, text, x, good) =
                settle-ok _ _ env.outcome_time response (sym result ∙ h) in
              ((here.geth_url, wire), (here.geth_url, status, text, x, good))
          | inr stop ↦ absurd (proxy_to_geth-stop n response stop h)
        ]

    -- A handler that makes its checks and then does `k`, for `k` that sends at most its request and
    -- whose successes are the node's answers.
    module _ (k : M (Node Value) (JsonRpcResponse Value)) where
      guarded-wire :
          ((n : Node Value) → ((k n).1.wire ≡ n.wire) ⊎ SentOne request n (k n).1)
          → (n : Node Value)
          → let n' = (resume (admit X env request n) (λ _. k)).1 in
            (n'.wire ≡ n.wire) ⊎ (SentOne request n n' × Passes X env request n)
      guarded-wire sends n =
          let same_wire = admit-wire X env request n in
          elim (resume-cases (admit X env request n) (λ _. k)) [
            | inl (e, raised, same) ↦ inl (ap (λ r. r.1.wire) same ∙ same_wire)
            | inr (passed, same) ↦ elim (sends (admit X env request n).1) [
              | inl quiet ↦ inl (ap (λ r. r.1.wire) same ∙ quiet ∙ same_wire)
              | inr (url, sent) ↦ inr (
                (
                  url,
                  ap (λ r. r.1.wire) same
                      ∙ sent
                      ∙ ap (λ w. w ++ record { url = url; request = request } ∷ []) same_wire,
                ),
                admit-Passes X env request n passed,
              )
            ]
          ]

      guarded-ok :
          ((n : Node Value) (response : JsonRpcResponse Value)
            → (k n).0 ≡ ok response
            → SentOne request n (k n).1 × Answered env request response)
          → (n : Node Value) (response : JsonRpcResponse Value)
          → (resume (admit X env request n) (λ _. k)).0 ≡ ok response
          → SentOne request n (resume (admit X env request n) (λ _. k)).1
            × Answered env request response
      guarded-ok good n response h =
          let same_wire = admit-wire X env request n in
          elim (resume-cases (admit X env request n) (λ _. k)) [
            | inl (e, raised, same) ↦ absurd (err≢ok (sym (ap (λ r. r.0) same) ∙ h))
            | inr (passed, same) ↦
                let ((url, sent), answered) =
                  good (admit X env request n).1 response (sym (ap (λ r. r.0) same) ∙ h) in
                (
                  (
                    url,
                    ap (λ r. r.1.wire) same
                        ∙ sent
                        ∙ ap (λ w. w ++ record { url = url; request = request } ∷ []) same_wire,
                  ),
                  answered,
                )
          ]

  -- `handle_rpc` sends nothing, or exactly the request that it was given, once; and then the
  -- request is well formed, its method is on the list, and the write budget allows it.
  pub handle_rpc-wire :
      (env : Env Value) (request : JsonRpcRequest Value) (n : Node Value)
      → let n' = (handle_rpc X env request n).1 in
        (n'.wire ≡ n.wire) ⊎ (SentOne request n n' × Passes X env request n)
  unfolding handle_rpc
  handle_rpc-wire env request n =
      guarded-wire env request (proxy_to_geth X env request) (proxy_to_geth-wire env request) n

  -- Every success of `handle_rpc` is the node's own answer, with a status of success, to this
  -- request, which was sent to it exactly once.
  pub handle_rpc-ok :
      (env : Env Value) (request : JsonRpcRequest Value) (n : Node Value)
      (response : JsonRpcResponse Value)
      → (handle_rpc X env request n).0 ≡ ok response
      → SentOne request n (handle_rpc X env request n).1 × Answered env request response
  unfolding handle_rpc
  handle_rpc-ok env request n response h =
      guarded-ok env request (proxy_to_geth X env request) (proxy_to_geth-ok env request) n response
        h

  forward_flashbots : Env Value → JsonRpcRequest Value → M (Node Value) (JsonRpcResponse Value)
  forward_flashbots env request =
      if str_eq request.method "eth_sendRawTransaction" || str_eq request.method "eth_sendBundle"
      then proxy_to_flashbots X env request
      else proxy_to_geth X env request

  forward_flashbots-wire :
      (env : Env Value) (request : JsonRpcRequest Value) (n : Node Value)
      → let n' = (forward_flashbots env request n).1 in (n'.wire ≡ n.wire) ⊎ SentOne request n n'
  unfolding forward_flashbots proxy_to_flashbots
  forward_flashbots-wire env request n =
      elim (Bool-cases (str_eq request.method "eth_sendBundle")) [
        | inl bundle ↦ inl (ground arith)
        | inr other ↦ ground (arith, proxy_to_geth-wire env request n)
      ]

  -- `handle_flashbots` with no relay: it sends nothing, or exactly the request that it was given,
  -- once, under the same three checks as `handle_rpc`.
  pub handle_flashbots-wire :
      (env : Env Value) (request : JsonRpcRequest Value) (n : Node Value)
      → let n' = (handle_flashbots X env request n).1 in
        (n'.wire ≡ n.wire) ⊎ (SentOne request n n' × Passes X env request n)
  unfolding handle_flashbots forward_flashbots
  handle_flashbots-wire env request n =
      guarded-wire env request (forward_flashbots env request) (forward_flashbots-wire env request)
        n

  bundle-refused :
      (env : Env Value) (request : JsonRpcRequest Value) (n : Node Value)
      → request.method ≡ "eth_sendBundle"
      → forward_flashbots env request n ≡ (
        ok (
            Rpc.error request.id
              (neg 32004)
              "MEV protection not configured: set FLASHBOTS_SIGNING_KEY to enable bundle submission"
              none),
        n,
      )
  unfolding forward_flashbots proxy_to_flashbots
  bundle-refused env request n m = ground (arith, eq_iff request.method "eth_sendBundle")

  -- A bundle is never sent to the node: `handle_flashbots` refuses it with one of the errors of
  -- its checks, or answers with the JSON-RPC error -32004 under the request's own id.
  pub handle_flashbots-bundle :
      (env : Env Value) (request : JsonRpcRequest Value) (n : Node Value)
      → request.method ≡ "eth_sendBundle"
      → let (result, n') = handle_flashbots X env request n in
        (n'.wire ≡ n.wire)
        × (((e : ProxyError) × (result ≡ err e) × ((admit X env request n).0 ≡ err e))
            ⊎ ((message : String) × (result ≡ ok (Rpc.error request.id (neg 32004) message none))
                × Passes X env request n))
  unfolding handle_flashbots forward_flashbots
  handle_flashbots-bundle env request n m =
      elim (resume-cases (admit X env request n) (λ _. forward_flashbots env request)) [
        | inl (e, raised, same) ↦ (
          ap (λ r. r.1.wire) same ∙ admit-wire X env request n,
          inl (e, ap (λ r. r.0) same, raised),
        )
        | inr (passed, same) ↦
            let all = same ∙ bundle-refused env request (admit X env request n).1 m in
            (
              ap (λ r. r.1.wire) all ∙ admit-wire X env request n,
              inr (_, ap (λ r. r.0) all, admit-Passes X env request n passed),
            )
      ]
