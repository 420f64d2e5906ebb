-- ===== src/Limiter/Window.antt =====
-- How many calls of one identifier a window lets through, whatever the bucket held before.
use torpc.Common.{
  ℕ, ◌+◌, ◌-◌, ◌*◌, ◌<◌, ◌≤◌, ◌^◌, max, String, Bool, List, [], ◌∷◌, Option, none, some, arith,
  lookup, leb, if◌then◌else◌, IsMap, All, count_if, retained,
}
use torpc.Limiter.{RateLimitConfig, Bucket, RateLimiter, charge, Event, call, sweep}
use torpc.Limiter.Buckets.{own, kept, verdicts_of, verdicts_of-own}

-- The clock readings of an event lie in a window that opens at `from`.
abbrev pub Within : ℕ → ℕ → Event → Type 0
Within from width (call identifier now) = (from ≤ now) × (now < from + width)
Within from width (sweep now) = (from ≤ now) × (now < from + width)

-- How many verdicts allow their request.
abbrev pub admitted : List Bool → ℕ
admitted = count_if (λ v. v)

-- The requests that a window may let through: at least one, since a first request is never counted
-- against the limit.
abbrev pub quota : RateLimitConfig → ℕ
quota c = max 1 c.max_requests

-- What a bucket still lets through in a window that opens at `from`.
abbrev budget : RateLimitConfig → ℕ → Option Bucket → ℕ
budget c from none = quota c
budget c from (some b) =
    if leb from b.window_start then quota c - b.count else quota c - b.count + quota c

budget-le : (c : RateLimitConfig) (from : ℕ) (o : Option Bucket) → budget c from o ≤ 2 * quota c
budget-le c from none = omega arith
budget-le c from (some b) = ground arith

-- A call in the window pays for its verdict.
charge-budget :
    (c : RateLimitConfig) (from now : ℕ) (o : Option Bucket)
    → c.max_requests < 2 ^ 32
    → from ≤ now
    → now < from + c.window_duration
    → let (b, allowed) = charge c o now in
      (if allowed then 1 else 0) + budget c from (some b) ≤ budget c from o
unfolding charge
charge-budget c from now none w p q = ground arith
charge-budget c from now (some b) w p q = ground arith

retained-budget :
    (c : RateLimitConfig) (from now : ℕ) (o : Option Bucket)
    → from ≤ now
    → now < from + c.window_duration
    → budget c from (retained (kept c now) o) ≤ budget c from o
retained-budget c from now none p q = omega arith
retained-budget c from now (some b) p q = ground arith

own-budget :
    (c : RateLimitConfig) (j : String) (from : ℕ) (o : Option Bucket) (es : List Event)
    → c.max_requests < 2 ^ 32
    → All (Within from c.window_duration) es
    → admitted (own c j o es) ≤ budget c from o
unfolding own
own-budget c j from o [] w h = omega arith
own-budget c j from o (call i now ∷ es) w ((p, q), h) = ground (
  arith,
  charge-budget c from now o w p q,
  own-budget c j from (some (charge c o now).0) es w h,
  own-budget c j from o es w h,
)
own-budget c j from o (sweep now ∷ es) w ((p, q), h) =
    omega (
      arith,
      retained-budget c from now o p q,
      own-budget c j from (retained (kept c now) o) es w h,
    )

-- In any span as long as the window, an identifier has at most twice the quota of its calls let
-- through, whatever the table held before, whatever others do, and whenever the table is swept.
pub window_bound :
    (l : RateLimiter) (j : String) (from : ℕ) (es : List Event)
    → IsMap l.requests
    → l.config.max_requests < 2 ^ 32
    → All (Within from l.config.window_duration) es
    → admitted (verdicts_of j l es) ≤ 2 * quota l.config
window_bound l j from es m w h = rw (verdicts_of-own j l es m) (
    omega (
      arith,
      own-budget l.config j from (lookup j l.requests) es w h,
      budget-le l.config from (lookup j l.requests),
    ))
