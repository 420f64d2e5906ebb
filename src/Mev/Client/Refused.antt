-- ===== src/Mev/Client/Refused.antt =====
-- Which refusals of the relay are tried again.
use mathlib.Core.Path.{subst}
use torpc.Common.{
  sym, ap, ◌∙◌, ℕ, suc, ◌<◌, ◌≡◌, refl, inl, inr, arith, String, true, false, none, ok, err,
  contains_text, Bool-cases,
}
use torpc.External.{External}
use torpc.Errors.{ProxyError, upstream_error, internal_error, invalid_request, to_string}
use torpc.Breaker.{can_proceed}
use torpc.Mev.Types.{Bundle, new_request}
use torpc.Mev.Retry.{should_retry}
use torpc.Mev.Client.{
  MevRelayClient, Relay, RelayEnv, answered, body_message, map_relay_error, read_reply, send_bundle,
}
use torpc.Mev.Client.Attempts.{Ends, IsRetried}
use torpc.Mev.Client.Submission.{gated, answer, send_bundle-reaches, send_bundle-exhausts}

-- A relay that answers every call with this status and this body.
abbrev pub refusing : RelayEnv → ℕ → String → RelayEnv
refusing env status body = record env { reply = λ k call. answered status (ok body) }

abbrev pub unauthenticated : ProxyError
unauthenticated = internal_error "Flashbots authentication failed - check signing key"

abbrev pub over_rate : ProxyError
over_rate = upstream_error "MEV relay rate limit exceeded"

abbrev pub invalid_bundle : ProxyError
invalid_bundle = invalid_request "Invalid bundle format"

unauthenticated-final : should_retry (to_string unauthenticated) ≡ false
unfolding should_retry to_string contains_text
unauthenticated-final = refl

over_rate-retried : should_retry (to_string over_rate) ≡ true
unfolding should_retry to_string contains_text
over_rate-retried = refl

invalid_bundle-retried : should_retry (to_string invalid_bundle) ≡ true
unfolding should_retry to_string contains_text
invalid_bundle-retried = refl

module _ (X : External) (env : RelayEnv) (client : MevRelayClient)
    (body signature text : String) where
  no_success : (status : ℕ) → 299 < status → X.is_success status ≡ false
  no_success status h = elim (Bool-cases (X.is_success status)) [
    | inl good ↦ absurd (omega (arith, (X.is_success_iff status).0 good))
    | inr bad ↦ bad
  ]

  refused :
      (status k : ℕ)
      → 299 < status
      → answer X (refusing env status text) client body signature k
        ≡ err (map_relay_error X status text)
  unfolding read_reply
  refused status k h = rw (read_reply, no_success status h) refl

  again :
      (status : ℕ) (e : ProxyError) (n : ℕ) (bundle : Bundle) (r : Relay)
      → (can_proceed r.circuit_breaker env.gate_time).1 ≡ true
      → env.encode (new_request bundle 1) ≡ ok body
      → env.sign body ≡ ok signature
      → client.retry_policy.max_attempts ≡ suc n
      → ((k : ℕ) → answer X (refusing env status text) client body signature k ≡ err e)
      → should_retry (to_string e) ≡ true
      → Ends X
          (refusing env status text)
          client
          body
          signature
          (suc n)
          n
          (err e)
          (gated env r)
          (send_bundle X (refusing env status text) client bundle r)
  again status e n bundle r allowed encoded signed many same retried =
      subst
        (λ o.
          Ends X (refusing env status text) client body signature (suc n) n o (gated env r)
            (send_bundle X (refusing env status text) client bundle r))
        (same n)
        (send_bundle-exhausts X (refusing env status text) client body signature signed bundle r n
          allowed encoded many
          (λ k less.
            subst (IsRetried X (refusing env status text) client body signature) (sym (same k))
              retried))

  -- A submission to a relay that refuses every attempt: where it is refused for its signature (401),
  -- one call is made and the refusal is returned; where it is refused for its rate (429), or as a bad
  -- request (400) with no readable message in the body, every attempt of the policy is made,
  -- with a sleep between each two, and the last refusal is returned. Either way the breaker counts
  -- one failure. The breaker admits the submission, and the request can be encoded and signed.
  pub refusals_retried :
      (bundle : Bundle) (r : Relay) (n : ℕ)
      → (can_proceed r.circuit_breaker env.gate_time).1 ≡ true
      → env.encode (new_request bundle 1) ≡ ok body
      → env.sign body ≡ ok signature
      → client.retry_policy.max_attempts ≡ suc n
      → body_message X text ≡ none
      → let submitted = λ (status : ℕ). send_bundle X (refusing env status text) client bundle r in
        Ends X
          (refusing env 401 text)
          client
          body
          signature
          1
          0
          (err unauthenticated)
          (gated env r)
          (submitted 401)
        × Ends X
            (refusing env 429 text)
            client
            body
            signature
            (suc n)
            n
            (err over_rate)
            (gated env r)
            (submitted 429)
        × Ends X
            (refusing env 400 text)
            client
            body
            signature
            (suc n)
            n
            (err invalid_bundle)
            (gated env r)
            (submitted 400)
  unfolding map_relay_error
  refusals_retried bundle r n allowed encoded signed many unread =
      let denied : answer X (refusing env 401 text) client body signature 0 ≡ err unauthenticated =
        refused 401 0 (omega arith) in
      let limited : (k : ℕ)
          → answer X (refusing env 429 text) client body signature k ≡ err over_rate =
        λ k. refused 429 k (omega arith) in
      let invalid : (k : ℕ)
          → answer X (refusing env 400 text) client body signature k ≡ err invalid_bundle =
        λ k. refused 400 k (omega arith) ∙ ap err (rw (map_relay_error, unread) refl) in
      (
        send_bundle-reaches X (refusing env 401 text) client body signature signed bundle r 0
            (err unauthenticated) allowed encoded (rw many (omega arith))
            (λ k less. absurd (omega arith)) denied unauthenticated-final,
        again 429 over_rate n bundle r allowed encoded signed many limited over_rate-retried,
        again 400 invalid_bundle n bundle r allowed encoded signed many invalid
            invalid_bundle-retried,
      )
