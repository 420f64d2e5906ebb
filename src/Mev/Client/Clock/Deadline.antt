-- ===== src/Mev/Client/Clock/Deadline.antt =====
-- Which submissions the middleware drops, and what is left of them.
use native.Mathlib.Nat.{suc-mul, mul-add}
use torpc.Common.{
  ℕ, zero, suc, ◌+◌, ◌-◌, ◌*◌, ◌<◌, ◌≤◌, ◌≡◌, refl, ap, inl, inr, arith, String, Option, none, some,
  ltb, if◌then◌else◌, Result-split, Bool-cases,
}
use torpc.External.{External}
use torpc.Proxy.Effects.Timed.{DoneOr}
use torpc.Errors.{ProxyError, ProxyResult, to_string}
use torpc.Breaker.{can_proceed}
use torpc.Mev.Types.{Bundle, new_request}
use torpc.Mev.Retry.{RetryPolicy, capped_delay, should_retry, longest_delay, calculate_delay-le}
use torpc.Mev.Client.{
  MevRelayClient, RelayCall, Relay, RelayEnv, send_bundle_attempt, pause, retry_loop, send_bundle,
}
use torpc.Mev.Client.Submission.{gated}
use torpc.Mev.Client.Clock.{Clock, wakes, finishes, retry_in_time, send_bundle_in_time}

all_calls : (n d t : ℕ) → t + n * (d + t) ≡ suc n * t + n * d
all_calls n d t = omega (arith, suc-mul n t, mul-add n d t)

module _ (X : External) (env : RelayEnv) (client : MevRelayClient) (clock : Clock) where
  abbrev policy : RetryPolicy
  policy = client.retry_policy

  -- How long a call and a sleep may take, to the millisecond at which their timers fire.
  abbrev pub patience : ℕ
  patience = client.config.request_timeout + 1_000_000

  abbrev pub nap : ℕ
  nap = longest_delay policy + 1_000_000

  -- The HTTP client gives up on every call at its timeout, and the random draws are in their range.
  pub record Timely : Type 0 where
    pub calls : (k : ℕ) (call : RelayCall) → clock.takes k call ≤ patience
    pub divides : 0 < policy.jitter_den
    pub draws : (k : ℕ) → env.draw (suc k) ≤ 2 * (capped_delay policy k * policy.jitter_num)

  -- The longest that so many attempts from this one on may take.
  abbrev span : ℕ → ℕ → ℕ
  span zero attempt = 0
  span (suc left) attempt =
      let rest = span left (attempt + 1) in (if ltb 0 attempt then nap else 0) + patience + rest

  span-late : (left attempt : ℕ) → 0 < attempt → span left attempt ≡ left * (nap + patience)
  span-late zero attempt h = omega arith
  span-late (suc left) attempt h =
      ground (arith, span-late left (attempt + 1) (omega arith), suc-mul left (nap + patience))

  -- A submission that makes all its attempts, with the longest delay before each but the first.
  abbrev pub longest : ℕ
  longest = policy.max_attempts * patience + (policy.max_attempts - 1) * nap

  span-longest : (n : ℕ) → span n 0 ≡ n * patience + (n - 1) * nap
  span-longest zero = omega arith
  span-longest (suc n) =
      let late = span-late n (0 + 1) (omega arith) in
      let one_less : suc n - 1 ≡ n = omega arith in
      omega (arith, late, all_calls n (nap) patience, ap (λ m. m * nap) one_less)

  module _ (timely : Timely) where
    wakes-le :
        (attempt now : ℕ)
        → wakes X env client clock attempt now ≤ now + (if ltb 0 attempt then nap else 0)
    wakes-le zero now = ground arith
    wakes-le (suc k) now =
        ground
          (arith, calculate_delay-le policy k (env.draw (suc k)) timely.divides (timely.draws k))

    finishes-le :
        (attempt : ℕ) (body : String) (now : ℕ)
        → finishes X env client clock attempt body now
          ≤ wakes X env client clock attempt now + patience
    finishes-le attempt body now = elim (Result-split (env.sign body)) [
      | inl (e, unsigned) ↦ ground (arith, unsigned)
      | inr (signature, signed) ↦
          let call : RelayCall = record {
            url = client.config.relay_url;
            signature = signature;
            body = body;
          } in
          ground (arith, signed, timely.calls attempt call)
    ]

    loop-in_time :
        (left attempt : ℕ) (last : Option ProxyError) (body : String) (now : ℕ) (r : Relay)
        → now + span left attempt ≤ clock.deadline
        → let done = retry_loop X env client left attempt last body r in
          retry_in_time X env client clock left attempt last body now r ≡ (some done.0, done.1)
    unfolding retry_in_time retry_loop
    loop-in_time zero attempt last body now r h = refl
    loop-in_time (suc left) attempt last body now r h =
        let tried = send_bundle_attempt X env client attempt body (pause X env client attempt r) in
        let end = finishes X env client clock attempt body now in
        let first = wakes-le attempt now in
        let second = finishes-le attempt body now in
        let later : end + span left (attempt + 1) ≤ clock.deadline =
          ground (arith, first, second) in
        let early : wakes X env client clock attempt now ≤ clock.deadline = ground (arith, first) in
        elim (Result-split tried.0) [
          | inl (e, failed) ↦ ground (
            arith,
            failed,
            early,
            later,
            loop-in_time left (attempt + 1) (some e) body end tried.1 later,
          )
          | inr (hash, good) ↦ ground (arith, good, early, later)
        ]

  tried-breaker :
      (attempt : ℕ) (body : String) (r : Relay)
      → (send_bundle_attempt X env client attempt body
          (pause X env client attempt r)).1.circuit_breaker
        ≡ r.circuit_breaker
  unfolding send_bundle_attempt
  tried-breaker attempt body r = elim (Result-split (env.sign body)) [
    | inl (e, unsigned) ↦ ground (arith, unsigned)
    | inr (signature, signed) ↦ ground (arith, signed)
  ]

  -- Done as without a clock, or dropped without a word to the breaker.
  abbrev pub DoneOrDropped :
      Relay → ProxyResult String × Relay → Option (ProxyResult String) × Relay → Type 0
  DoneOrDropped r done t = DoneOr (λ r'. r'.circuit_breaker ≡ r.circuit_breaker) done t

  loop-DoneOrDropped :
      (left attempt : ℕ) (last : Option ProxyError) (body : String) (now : ℕ) (r : Relay)
      → DoneOrDropped r
          (retry_loop X env client left attempt last body r)
          (retry_in_time X env client clock left attempt last body now r)
  unfolding retry_in_time retry_loop
  loop-DoneOrDropped zero attempt last body now r = inl refl
  loop-DoneOrDropped (suc left) attempt last body now r =
      let paused = pause X env client attempt r in
      let tried = send_bundle_attempt X env client attempt body paused in
      let same = tried-breaker attempt body r in
      let end = finishes X env client clock attempt body now in
      elim (Bool-cases (ltb clock.deadline (wakes X env client clock attempt now))) [
        | inl asleep ↦ inr (elim (Result-split tried.0) [
          | inl (e, failed) ↦ ground (arith, asleep, failed)
          | inr (hash, good) ↦ ground (arith, asleep, good)
        ])
        | inr awake ↦ elim (Bool-cases (ltb clock.deadline end)) [
          | inl waiting ↦ inr (elim (Result-split tried.0) [
            | inl (e, failed) ↦ ground (arith, awake, waiting, failed, same)
            | inr (hash, good) ↦ ground (arith, awake, waiting, good, same)
          ])
          | inr heard ↦ elim (Result-split tried.0) [
            | inl (e, failed) ↦ elim (Bool-cases (should_retry (to_string e))) [
              | inl again ↦ elim (loop-DoneOrDropped left (attempt + 1) (some e) body end tried.1) [
                | inl done ↦ inl (ground (arith, awake, heard, failed, again, done))
                | inr (dropped, untold) ↦
                    inr (ground (arith, awake, heard, failed, again, dropped, untold, same))
              ]
              | inr final ↦ inl (ground (arith, awake, heard, failed, final))
            ]
            | inr (hash, good) ↦ inl (ground (arith, awake, heard, good))
          ]
        ]
      ]

  -- A submission that asks the breaker early enough before the deadline is done exactly as without
  -- a clock: early enough for all the attempts of the policy, each for the HTTP client's timeout,
  -- and for the longest delay before each but the first. The HTTP client gives up on every call at
  -- its timeout, and the random draws are in their range.
  pub send_bundle_in_time-fits :
      (bundle : Bundle) (r : Relay)
      → Timely
      → env.gate_time + longest ≤ clock.deadline
      → let done = send_bundle X env client bundle r in
        send_bundle_in_time X env client clock bundle r ≡ (some done.0, done.1)
  unfolding send_bundle_in_time send_bundle
  send_bundle_in_time-fits bundle r timely h =
      elim (Result-split (env.encode (new_request bundle 1))) [
        | inl (e, bad) ↦ ground (arith, bad)
        | inr (body, good) ↦
            let fits : env.gate_time + span policy.max_attempts 0 ≤ clock.deadline =
              omega (arith, span-longest policy.max_attempts) in
            ground (
              arith,
              good,
              loop-in_time timely policy.max_attempts 0 none body env.gate_time (gated env r) fits,
            )
      ]

  -- A submission under the clock is done as without it, or dropped; and a submission that is
  -- dropped has told the breaker nothing, whatever the relay has answered to it so far.
  pub send_bundle-DoneOrDropped :
      (bundle : Bundle) (r : Relay)
      → DoneOrDropped
          (gated env r)
          (send_bundle X env client bundle r)
          (send_bundle_in_time X env client clock bundle r)
  unfolding send_bundle_in_time send_bundle
  send_bundle-DoneOrDropped bundle r = elim (Result-split (env.encode (new_request bundle 1))) [
    | inl (e, bad) ↦ inl (ground (arith, bad))
    | inr (body, good) ↦ elim (Bool-cases (can_proceed r.circuit_breaker env.gate_time).1) [
      | inl go ↦
          elim (loop-DoneOrDropped policy.max_attempts 0 none body env.gate_time (gated env r)) [
            | inl done ↦ inl (ground (arith, good, go, done))
            | inr (dropped, untold) ↦ inr (ground (arith, good, go, dropped, untold))
          ]
      | inr stop ↦ inl (ground (arith, good, stop))
    ]
  ]
