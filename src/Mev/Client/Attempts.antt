-- ===== src/Mev/Client/Attempts.antt =====
-- How the loop of attempts ends: how often the relay is called, what is returned, what the breaker is
-- told.
use native.Mathlib.Nat.{add-zero}
use mathlib.Core.Path.{subst}
use torpc.Common.{
  ltb, if◌then◌else◌, ℕ, zero, suc, ◌+◌, ◌-◌, ◌<◌, ◌≡◌, refl, ap, ◌∙◌, String, true, false, [], ◌∷◌,
  Option, some, arith, ok, err, length, length-append,
}
use torpc.External.{External}
use torpc.Errors.{ProxyError, ProxyResult, to_string}
use torpc.Breaker.{CircuitBreaker, record_success, record_failure}
use torpc.Mev.Retry.{calculate_delay, should_retry}
use torpc.Mev.Client.{
  MevRelayClient, RelayCall, Relay, RelayEnv, report_success, report_failure, read_reply,
  send_bundle_attempt, pause, retry_loop,
}

module _ (X : External) (env : RelayEnv) (client : MevRelayClient) (body signature : String) where
  -- What the relay's answer to an attempt comes to.
  abbrev pub outcome : ℕ → ProxyResult String
  outcome k =
      read_reply X
        (env.reply k (record { url = client.config.relay_url; signature = signature; body = body }))

  -- An answer that ends the submission: a bundle hash, or an error that is not retried.
  abbrev pub IsFinal : ProxyResult String → Type 0
  IsFinal (ok hash) = Unit
  IsFinal (err e) = should_retry (to_string e) ≡ false

  abbrev pub IsRetried : ProxyResult String → Type 0
  IsRetried (ok hash) = ⊥
  IsRetried (err e) = should_retry (to_string e) ≡ true

  -- What the breaker is told of a result.
  abbrev pub told : ProxyResult String → CircuitBreaker → CircuitBreaker
  told (ok hash) b = record_success (env.others b)
  told (err e) b = record_failure (env.others b) env.outcome_time

  -- A submission that made so many calls, with one sleep between each two, and ended with `result`.
  pub record Ends (calls sleeps : ℕ) (result : ProxyResult String) (r : Relay)
      (end : ProxyResult String × Relay) : Type 0 where
    pub returns : end.0 ≡ result
    pub called : length end.1.calls ≡ length r.calls + calls
    pub slept : length end.1.sleeps ≡ length r.sleeps + sleeps
    pub reported : end.1.circuit_breaker ≡ told result r.circuit_breaker

  module _ (signed : env.sign body ≡ ok signature) where
    abbrev tried : ℕ → Relay → ProxyResult String × Relay
    tried attempt r = send_bundle_attempt X env client attempt body (pause X env client attempt r)

    -- One sleep before every attempt but the first.
    abbrev naps : ℕ → ℕ
    naps attempt = if ltb 0 attempt then 1 else 0

    pause_lem :
        (attempt : ℕ) (r : Relay)
        → (length (pause X env client attempt r).sleeps ≡ length r.sleeps + naps attempt)
          × ((pause X env client attempt r).calls ≡ r.calls)
          × ((pause X env client attempt r).circuit_breaker ≡ r.circuit_breaker)
    pause_lem attempt r = ground (
      arith,
      length-append r.sleeps
          (calculate_delay client.retry_policy (attempt - 1) (env.draw attempt) ∷ []),
    )

    attempt_lem :
        (attempt : ℕ) (r : Relay)
        → let t = send_bundle_attempt X env client attempt body r in
          (t.0 ≡ outcome attempt)
          × (length t.1.calls ≡ suc (length r.calls))
          × (t.1.sleeps ≡ r.sleeps)
          × (t.1.circuit_breaker ≡ r.circuit_breaker)
    unfolding send_bundle_attempt
    attempt_lem attempt r =
        let call : RelayCall = record {
          url = client.config.relay_url;
          signature = signature;
          body = body;
        } in
        ground (arith, length-append r.calls (call ∷ []))

    tried_lem :
        (attempt : ℕ) (r : Relay)
        → let t = tried attempt r in
          (t.0 ≡ outcome attempt)
          × (length t.1.calls ≡ suc (length r.calls))
          × (length t.1.sleeps ≡ length r.sleeps + naps attempt)
          × (t.1.circuit_breaker ≡ r.circuit_breaker)
    tried_lem attempt r =
        let (a, b, c, d) = attempt_lem attempt (pause X env client attempt r) in
        let (x, y, z) = pause_lem attempt r in
        (a, b ∙ ap (λ l. suc (length l)) y, ap length c ∙ x, d ∙ z)

    module _ (left attempt : ℕ) (last : Option ProxyError) (r : Relay) where
      loop-ok :
          (hash : String)
          → (tried attempt r).0 ≡ ok hash
          → retry_loop X env client (suc left) attempt last body r
            ≡ (ok hash, report_success env (tried attempt r).1)
      unfolding retry_loop
      loop-ok hash h = ground arith

      loop-fatal :
          (e : ProxyError)
          → (tried attempt r).0 ≡ err e
          → should_retry (to_string e) ≡ false
          → retry_loop X env client (suc left) attempt last body r
            ≡ (err e, report_failure env (tried attempt r).1)
      unfolding retry_loop
      loop-fatal e h f = ground arith

      loop-again :
          (e : ProxyError)
          → (tried attempt r).0 ≡ err e
          → should_retry (to_string e) ≡ true
          → retry_loop X env client (suc left) attempt last body r
            ≡ retry_loop X env client left (attempt + 1) (some e) body (tried attempt r).1
      unfolding retry_loop
      loop-again e h f = ground arith

    -- The loop when the next answer ends it.
    loop-final :
        (left attempt : ℕ) (last : Option ProxyError) (r : Relay) (o : ProxyResult String)
        → outcome attempt ≡ o
        → IsFinal o
        → Ends 1 (naps attempt) o r (retry_loop X env client (suc left) attempt last body r)
    loop-final left attempt last r (ok hash) e f =
        let (a, b, c, d) = tried_lem attempt r in
        rw (loop-ok left attempt last r hash (a ∙ e)) (record {
          returns = refl;
          called = omega arith;
          slept = c;
          reported = ap (told (ok hash)) d;
        })
    loop-final left attempt last r (err x) e f =
        let (a, b, c, d) = tried_lem attempt r in
        rw (loop-fatal left attempt last r x (a ∙ e) f) (record {
          returns = refl;
          called = omega arith;
          slept = c;
          reported = ap (told (err x)) d;
        })

    -- One retried attempt before an end.
    Ends-after :
        (attempt calls sleeps : ℕ) (r : Relay) (o : ProxyResult String)
        (end : ProxyResult String × Relay)
        → Ends calls sleeps o (tried attempt r).1 end
        → Ends (suc calls) (naps attempt + sleeps) o r end
    Ends-after attempt calls sleeps r o end v =
        let (a, b, c, d) = tried_lem attempt r in
        record {
          returns = v.returns;
          called = omega arith;
          slept = omega arith;
          reported = v.reported ∙ ap (told o) d;
        }

    retried-err :
        (o : ProxyResult String)
        → IsRetried o
        → (e : ProxyError) × (o ≡ err e) × (should_retry (to_string e) ≡ true)
    retried-err (ok hash) h = elim h [ ]
    retried-err (err e) h = (e, refl, h)

    shift : (attempt k : ℕ) → attempt + suc k ≡ attempt + 1 + k
    shift attempt k = omega arith

    pub loop-reaches :
        (n left attempt : ℕ) (last : Option ProxyError) (r : Relay) (o : ProxyResult String)
        → n < left
        → ((k : ℕ) → k < n → IsRetried (outcome (attempt + k)))
        → outcome (attempt + n) ≡ o
        → IsFinal o
        → Ends (suc n) (naps attempt + n) o r (retry_loop X env client left attempt last body r)
    loop-reaches n zero attempt last r o h earlier e f = absurd (omega arith)
    loop-reaches zero (suc left) attempt last r o h earlier e f =
        rw add-zero (loop-final left attempt last r o (rw add-zero at e) f)
    loop-reaches (suc n) (suc left) attempt last r o h earlier e f =
        let now : IsRetried (outcome attempt) = rw add-zero at (earlier 0 (omega arith)) in
        let (x, failed, again) = retried-err (outcome attempt) now in
        let more : naps attempt + (naps (attempt + 1) + n) ≡ naps attempt + suc n = ground arith in
        let rest =
          loop-reaches n left (attempt + 1) (some x) (tried attempt r).1 o (omega arith)
            (λ k less.
              subst (λ m. IsRetried (outcome m)) (shift attempt k) (earlier (suc k) (omega arith)))
            (subst (λ m. outcome m ≡ o) (shift attempt n) e) f in
        rw (loop-again left attempt last r x ((tried_lem attempt r).0 ∙ failed) again) (
          subst
            (λ s.
              Ends (suc (suc n)) s o r
                (retry_loop X env client left (attempt + 1) (some x) body (tried attempt r).1))
            more (Ends-after attempt (suc n) (naps (attempt + 1) + n) r o _ rest))

    loop-zero :
        (attempt : ℕ) (e : ProxyError) (r : Relay)
        → retry_loop X env client 0 attempt (some e) body r ≡ (err e, report_failure env r)
    unfolding retry_loop
    loop-zero attempt e r = refl

    -- All attempts fail and are retried: the last error is returned.
    pub loop-exhausts :
        (left attempt : ℕ) (last : Option ProxyError) (r : Relay)
        → ((k : ℕ) → k < suc left → IsRetried (outcome (attempt + k)))
        → Ends
            (suc left)
            (naps attempt + left)
            (outcome (attempt + left))
            r
            (retry_loop X env client (suc left) attempt last body r)
    loop-exhausts zero attempt last r all =
        let (a, b, c, d) = tried_lem attempt r in
        let now : IsRetried (outcome attempt) = rw add-zero at (all 0 (omega arith)) in
        let (x, failed, again) = retried-err (outcome attempt) now in
        rw (add-zero, add-zero, failed, loop-again 0 attempt last r x (a ∙ failed) again, loop-zero)
          (record {
            returns = refl;
            called = omega arith;
            slept = omega arith;
            reported = ap (told (err x)) d;
          })
    loop-exhausts (suc left) attempt last r all =
        let now : IsRetried (outcome attempt) = rw add-zero at (all 0 (omega arith)) in
        let (x, failed, again) = retried-err (outcome attempt) now in
        let more : naps attempt + (naps (attempt + 1) + left) ≡ naps attempt + suc left =
          ground arith in
        let rest = loop-exhausts left (attempt + 1) (some x) (tried attempt r).1 (λ k less.
          subst (λ m. IsRetried (outcome m)) (shift attempt k) (all (suc k) (omega arith))) in
        rw (loop-again (suc left) attempt last r x ((tried_lem attempt r).0 ∙ failed) again) (
          rw (shift attempt left) (
            subst
              (λ s. Ends (suc (suc left)) s (outcome (attempt + 1 + left)) r (
                retry_loop X env client (suc left) (attempt + 1) (some x) body (tried attempt r).1))
              more
              (Ends-after attempt (suc left) (naps (attempt + 1) + left) r
                (outcome (attempt + 1 + left)) _ rest)))
