-- ===== src/Mev/Client/Submission.antt =====
-- How a submission that the breaker admits ends.
use native.Mathlib.Nat.{zero-add}
use mathlib.Core.Path.{subst}
use torpc.Common.{ℕ, suc, ◌<◌, ◌≡◌, sym, String, true, none, arith, ok}
use torpc.External.{External}
use torpc.Errors.{ProxyResult}
use torpc.Breaker.{can_proceed}
use torpc.Mev.Types.{Bundle, new_request}
use torpc.Mev.Client.{MevRelayClient, Relay, RelayEnv, retry_loop, send_bundle}
use torpc.Mev.Client.Attempts.{outcome, IsFinal, IsRetried, Ends, loop-reaches, loop-exhausts}

-- The relay as the breaker's gate leaves it.
abbrev pub gated : RelayEnv → Relay → Relay
gated env r = record r { circuit_breaker = (can_proceed r.circuit_breaker env.gate_time).0 }

module _ (X : External) (env : RelayEnv) (client : MevRelayClient) (body signature : String) where
  -- What the relay's answer to an attempt comes to.
  abbrev pub answer : ℕ → ProxyResult String
  answer = outcome X env client body signature

  abbrev pub Retried : ℕ → Type 0
  Retried k = IsRetried X env client body signature (answer k)

  send_bundle-allowed :
      (bundle : Bundle) (r : Relay)
      → (can_proceed r.circuit_breaker env.gate_time).1 ≡ true
      → env.encode (new_request bundle 1) ≡ ok body
      → send_bundle X env client bundle r
        ≡ retry_loop X env client client.retry_policy.max_attempts 0 none body (gated env r)
  unfolding send_bundle
  send_bundle-allowed bundle r allowed encoded = ground arith

  module _ (signed : env.sign body ≡ ok signature) where
    -- When the breaker admits a submission, the request can be encoded and signed, the relay's first n
    -- answers are errors that are retried, and its answer to attempt n (counted from 0, below the
    -- policy's number of attempts) is final, then exactly n + 1 calls and n sleeps are made, that answer
    -- is returned, and the breaker is told of it once.
    pub send_bundle-reaches :
        (bundle : Bundle) (r : Relay) (n : ℕ) (o : ProxyResult String)
        → (can_proceed r.circuit_breaker env.gate_time).1 ≡ true
        → env.encode (new_request bundle 1) ≡ ok body
        → n < client.retry_policy.max_attempts
        → ((k : ℕ) → k < n → Retried k)
        → answer n ≡ o
        → IsFinal X env client body signature o
        → Ends X env client body signature
            (suc n)
            n
            o
            (gated env r)
            (send_bundle X env client bundle r)
    send_bundle-reaches bundle r n o allowed encoded h earlier e f =
        rw (send_bundle-allowed bundle r allowed encoded) (
          subst
            (λ s.
              Ends X env client body signature (suc n) s o (gated env r) (
                retry_loop X env client client.retry_policy.max_attempts 0 none body (gated env r)))
            (zero-add n)
            (loop-reaches X env client body signature signed n client.retry_policy.max_attempts 0
              none (gated env r) o h (λ k less. rw zero-add (earlier k less)) (rw zero-add e) f))

    -- When the breaker admits a submission, the request can be encoded and signed, and every answer of
    -- the relay is an error that is retried, a policy of n + 1 attempts makes n + 1 calls and n sleeps,
    -- returns the last error, and the breaker counts one failure for the whole submission.
    pub send_bundle-exhausts :
        (bundle : Bundle) (r : Relay) (n : ℕ)
        → (can_proceed r.circuit_breaker env.gate_time).1 ≡ true
        → env.encode (new_request bundle 1) ≡ ok body
        → client.retry_policy.max_attempts ≡ suc n
        → ((k : ℕ) → k < suc n → Retried k)
        → Ends X env client body signature
            (suc n)
            n
            (answer n)
            (gated env r)
            (send_bundle X env client bundle r)
    send_bundle-exhausts bundle r n allowed encoded h all =
        let end : ℕ → ProxyResult String × Relay =
          λ left. retry_loop X env client left 0 none body (gated env r) in
        rw (send_bundle-allowed bundle r allowed encoded) (
          subst
            (λ left. Ends X env client body signature (suc n) n (answer n) (gated env r) (end left))
            (sym h)
            (subst
              (λ m.
                Ends X env client body signature (suc n) m (answer m) (gated env r) (end (suc n)))
              (zero-add n)
              (loop-exhausts X env client body signature signed n 0 none (gated env r)
                (λ k less. rw zero-add (all k less)))))
