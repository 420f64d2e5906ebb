-- ===== src/Proxy/Timeout/Hang.antt =====
-- A node that takes requests and does not answer.
use mathlib.Core.Path.{subst}
use torpc.Common.{
  ℕ, suc, ◌+◌, ◌<◌, ◌≡◌, ◌⊎◌, ◌∙◌, refl, sym, ap, inl, inr, arith, true, false, List, [], ◌∷◌, none,
  ok, length, length-append, replicate, All,
}
use torpc.External.{External}
use torpc.Rpc.{validate}
use torpc.Breaker.{CircuitBreaker, closed, half_open, can_proceed}
use torpc.Whitelist.{contains, is_method_allowed}
use torpc.Proxy.{
  ProxyState, Sent, Node, write_methods, check_method, check_write_method_rate_limit, admit,
}
use torpc.Proxy.Timeout.{
  client_timeout, Pending, fires, seen, proxy_in_time, handle_in_time, serve_in_time,
  results_in_time,
}

-- A breaker that lets requests through without being changed by that.
abbrev pub LetsThrough : CircuitBreaker → Type 0
LetsThrough b = ((k : ℕ) × (b.state ≡ closed k)) ⊎ (b.state ≡ half_open)

LetsThrough-can_proceed :
    (b : CircuitBreaker) (now : ℕ) → LetsThrough b → can_proceed b now ≡ (b, true)
unfolding can_proceed
LetsThrough-can_proceed b now (inl (k, s)) = ground arith
LetsThrough-can_proceed b now (inr s) = ground arith

module _ (X : External) where
  open X use {Value}

  -- A well-formed request to read, which the node never answers, and during which no other task
  -- tells the breaker anything. The middleware's timer fires at an earlier tick than the client's.
  pub record Hangs (limit : ℕ) (p : Pending Value) : Type 0 where
    pub valid : validate p.request ≡ ok tt
    pub listed : is_method_allowed p.request.method ≡ true
    pub reads : contains p.request.method write_methods ≡ false
    pub silent : (s : Sent Value) → p.answers_at s ≡ none
    pub sooner : fires (p.started + limit) < fires (p.env.gate_time + client_timeout)
    pub before_gate : (b : ProxyState) → (p.env.before_gate b).geth_circuit ≡ b.geth_circuit
    pub others : (b : ProxyState) → (p.env.others b).geth_circuit ≡ b.geth_circuit

  module _ (limit : ℕ) (p : Pending Value) (n : Node Value) (h : Hangs limit p) where
    admitted_as_is : admit X p.env p.request n ≡ (ok tt, n)
    unfolding admit check_method check_write_method_rate_limit
    admitted_as_is = ground (arith, h.valid, h.listed, h.reads)

    seen-late : (s : Sent Value) → (seen X p s).1 ≡ fires (p.env.gate_time + client_timeout)
    seen-late s = ground (arith, h.silent s)

    abbrev here : ProxyState
    here = p.env.before_gate n.base

    here-LetsThrough : LetsThrough n.base.geth_circuit → LetsThrough here.geth_circuit
    here-LetsThrough through = subst LetsThrough (sym (h.before_gate n.base)) through

    proxy-dropped :
        LetsThrough n.base.geth_circuit
        → let r = proxy_in_time X limit p n in
          (r.0 ≡ none)
          × (r.1.base.geth_circuit ≡ n.base.geth_circuit)
          × (length r.1.wire ≡ suc (length n.wire))
    unfolding proxy_in_time
    proxy-dropped through =
        let sent : Sent Value = record { url = here.geth_url; request = p.request } in
        let kept =
          LetsThrough-can_proceed here.geth_circuit p.env.gate_time (here-LetsThrough through) in
        ground (
          arith,
          kept,
          seen-late sent,
          h.sooner,
          h.others here,
          h.before_gate n.base,
          length-append n.wire (sent ∷ []),
        )

    handled : handle_in_time X limit p n ≡ proxy_in_time X limit p n
    unfolding handle_in_time
    handled =
        let passed : (admit X p.env p.request n).0 ≡ ok tt = ap (λ r. r.0) admitted_as_is in
        let same : (admit X p.env p.request n).1 ≡ n = ap (λ r. r.1) admitted_as_is in
        rw (handle_in_time, passed, same) refl

    -- The request is dropped: the breaker is left as it was, and one request more was sent.
    handle-dropped :
        LetsThrough n.base.geth_circuit
        → let r = handle_in_time X limit p n in
          (r.0 ≡ none)
          × (r.1.base.geth_circuit ≡ n.base.geth_circuit)
          × (length r.1.wire ≡ suc (length n.wire))
    handle-dropped through = rw handled (proxy-dropped through)

  -- Requests to read that a breaker lets through, and that the node never answers, are all sent,
  -- however many they are, and all dropped, and the breaker, closed or half-open, stays as it was: it
  -- does not see that the node hangs, and stops none of them. The condition: the middleware's timer
  -- fires at an earlier millisecond of tokio's clock than the timer of the HTTP client, and no other
  -- task tells the breaker of a success or a failure meanwhile.
  pub hang_unseen :
      (limit : ℕ) (ps : List (Pending Value)) (n : Node Value)
      → LetsThrough n.base.geth_circuit
      → All (Hangs limit) ps
      → let after = serve_in_time X limit ps n in
        (results_in_time X limit ps n ≡ replicate (length ps) none)
        × (after.base.geth_circuit ≡ n.base.geth_circuit)
        × (length after.wire ≡ length n.wire + length ps)
  unfolding serve_in_time results_in_time
  hang_unseen limit [] n through h = (refl, refl, omega arith)
  hang_unseen limit (p ∷ ps) n through (hp, hs) =
      let (dropped, kept, sent) = handle-dropped limit p n hp through in
      let n' = (handle_in_time X limit p n).1 in
      let (results, breaker, wire) =
        hang_unseen limit ps n' (subst LetsThrough (sym kept) through) hs in
      (
        ap (λ r. r ∷ results_in_time X limit ps n') dropped ∙ ap (λ l. none ∷ l) results,
        breaker ∙ kept,
        omega arith,
      )
