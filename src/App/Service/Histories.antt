-- ===== src/App/Service/Histories.antt =====
-- What happens to the service over time, and what the visits of one connection add to a count of its
-- state.
use native.Mathlib.Nat.{suc-mul}
use torpc.Common.{
  ℕ, zero, suc, ◌+◌, ◌-◌, ◌*◌, ◌<◌, ◌≤◌, ◌≡◌, ◌^◌, inl, inr, arith, String, List, [], ◌∷◌, ◌++◌,
  Bool-cases, str_eq, Option, if◌then◌else◌, IsMap, All,
}
use torpc.External.{External}
use torpc.Limiter
use torpc.Limiter.{
  RateLimiter, check_rate_limit, cleanup, get_request_identifier, rate_limit_middleware, Event,
  call, sweep,
}
use torpc.Limiter.Buckets.{verdicts_of}
use torpc.Limiter.Window.{Within, admitted, quota, window_bound}
use torpc.Mev.Client.{MevRelayClient}
use torpc.Mev.Handler.{MevProxyState}
use torpc.App.Service.{
  Service, Endpoint, Matched, endpoint, wrong_method, fallback, matched, Visit, respond, serve_at,
  rate_limited, serve,
}

-- What happens to the service: a visit, or the sweep of the limiter's table.
pub data Moment (Value : Type 0) : Type 0 where
  visit : Visit Value → Moment Value
  sweeping : ℕ → Moment Value

-- The instants of a history lie in a window that opens at `from`.
abbrev pub InWindow : {Value : Type 0} → ℕ → ℕ → Moment Value → Type 0
InWindow from width (visit v) = (from ≤ v.now) × (v.now < from + width)
InWindow from width (sweeping now) = (from ≤ now) × (now < from + width)

-- So many times `n`.
abbrev weigh : ℕ → ℕ → ℕ
weigh n zero = 0
weigh n (suc k) = n + weigh n k

weigh-le : (n k m : ℕ) → k ≤ m → weigh n k ≤ m * n
weigh-le n zero m h = omega arith
weigh-le n (suc k) zero h = omega arith
weigh-le n (suc k) (suc m) h = omega (arith, weigh-le n k m (omega arith), suc-mul m n)

module _ (X : External) (max_body_size : ℕ) where
  open X use {Value}

  unfoldable pub step : Service Value → Moment Value → Service Value
  unfolding serve
  step s (visit v) = (serve X max_body_size v s).1
  step s (sweeping now) = record s { rate_limiter = cleanup s.rate_limiter now }

  -- What a count of the handlers' state grows by during the visits by the connection `j`.
  unfoldable pub grown_for :
      (MevProxyState Value → ℕ) → String → Service Value → List (Moment Value) → ℕ
  unfolding step
  grown_for count j s [] = 0
  grown_for count j s (visit v ∷ ms) =
      let after = step s (visit v) in
      let rest = grown_for count j after ms in
      if str_eq (get_request_identifier v.request.peer) j
      then count after.mev_state - count s.mev_state + rest
      else rest
  grown_for count j s (sweeping now ∷ ms) = grown_for count j (step s (sweeping now)) ms

  -- What a request does to the limiter, where its route is matched.
  abbrev asked : Matched → Visit Value → List Event
  asked (endpoint e) v = call (get_request_identifier v.request.peer) v.now ∷ []
  asked wrong_method v = call (get_request_identifier v.request.peer) v.now ∷ []
  asked fallback v = []

  abbrev asked_by : Moment Value → List Event
  asked_by (visit v) = asked (matched v.request.method v.request.path) v
  asked_by (sweeping now) = sweep now ∷ []

  abbrev events_of : List (Moment Value) → List Event
  events_of [] = []
  events_of (m ∷ ms) = asked_by m ++ events_of ms

  asked-Within :
      (m : Matched) (v : Visit Value) (from width : ℕ) (es : List Event)
      → (from ≤ v.now) × (v.now < from + width)
      → All (Within from width) es
      → All (Within from width) (asked m v ++ es)
  asked-Within (endpoint e) v from width es p h = (p, h)
  asked-Within wrong_method v from width es p h = (p, h)
  asked-Within fallback v from width es p h = h

  events_of-Within :
      (from width : ℕ) (ms : List (Moment Value))
      → All (InWindow from width) ms
      → All (Within from width) (events_of ms)
  events_of-Within from width [] h = tt
  events_of-Within from width (visit v ∷ ms) (p, h) =
      asked-Within (matched v.request.method v.request.path) v from width (events_of ms) p
        (events_of-Within from width ms h)
  events_of-Within from width (sweeping now ∷ ms) (p, h) = (p, events_of-Within from width ms h)

  -- The handlers, under one relay client, add so much at most to the count, and keep the client.
  abbrev pub HandlersGrow : (MevProxyState Value → ℕ) → ℕ → Option MevRelayClient → Type 0
  HandlersGrow count n client =
      (e : Endpoint) (v : Visit Value) (s : MevProxyState Value)
      → s.mev_client ≡ client
      → let after = (respond X max_body_size e v s).1 in
        (count after ≤ n + count s) × (after.mev_client ≡ client)

  module _ (count : MevProxyState Value → ℕ) (n : ℕ) (client : Option MevRelayClient)
      (grow : HandlersGrow count n client) where
    serve_at-paid :
        (m : Matched) (v : Visit Value) (s : Service Value) (j : String) (es : List Event)
        → s.mev_state.mev_client ≡ client
        → let after = (serve_at X max_body_size m v s).1 in
          ((if str_eq (get_request_identifier v.request.peer) j
                then count after.mev_state - count s.mev_state
                else 0)
              + weigh n (admitted (verdicts_of j after.rate_limiter es))
            ≤ weigh n (admitted (verdicts_of j s.rate_limiter (asked m v ++ es))))
          × (after.mev_state.mev_client ≡ client)
    unfolding serve_at rate_limited rate_limit_middleware verdicts_of Limiter.step
    serve_at-paid wrong_method v s j es c =
        elim (Bool-cases
          (check_rate_limit s.rate_limiter (get_request_identifier v.request.peer) v.now).1) [
            | inl allowed ↦ ground (arith, c)
            | inr refused ↦ ground (arith, c)
          ]
    serve_at-paid fallback v s j es c = ground (arith, c)
    serve_at-paid (endpoint e) v s j es c =
        elim (Bool-cases
          (check_rate_limit s.rate_limiter (get_request_identifier v.request.peer) v.now).1) [
            | inl allowed ↦ ground (arith, grow e v s.mev_state c)
            | inr refused ↦ ground (arith, c)
          ]

    grown_for-admitted :
        (j : String) (s : Service Value) (ms : List (Moment Value))
        → s.mev_state.mev_client ≡ client
        → grown_for count j s ms ≤ weigh n (admitted (verdicts_of j s.rate_limiter (events_of ms)))
    unfolding grown_for step serve verdicts_of Limiter.step
    grown_for-admitted j s [] c = omega arith
    grown_for-admitted j s (visit v ∷ ms) c =
        let (paid, kept) =
          serve_at-paid (matched v.request.method v.request.path) v s j (events_of ms) c in
        ground (arith, grown_for-admitted j (step s (visit v)) ms kept)
    grown_for-admitted j s (sweeping now ∷ ms) c = grown_for-admitted j (step s (sweeping now)) ms c

    -- In any span as long as the window, the visits of one connection add to the count at most what
    -- twice the quota of requests may add.
    pub grown_for-le :
        (s : Service Value) (j : String) (from : ℕ) (ms : List (Moment Value))
        → s.mev_state.mev_client ≡ client
        → IsMap s.rate_limiter.requests
        → s.rate_limiter.config.max_requests < 2 ^ 32
        → All (InWindow from s.rate_limiter.config.window_duration) ms
        → grown_for count j s ms ≤ 2 * quota s.rate_limiter.config * n
    grown_for-le s j from ms c m w h =
        let window = s.rate_limiter.config.window_duration in
        let bound =
          window_bound s.rate_limiter j from (events_of ms) m w
            (events_of-Within from window ms h) in
        omega (
          arith,
          grown_for-admitted j s ms c,
          weigh-le n (admitted (verdicts_of j s.rate_limiter (events_of ms)))
              (2 * quota s.rate_limiter.config) bound,
        )
