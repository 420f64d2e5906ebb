-- ===== src/Limiter/Cleanup.antt =====
-- The periodic cleanup is invisible to callers.
use torpc.Common.{
  ℕ, ◌-◌, ◌≤◌, ◌≡◌, refl, String, List, [], ◌∷◌, Option, none, some, arith, lookup, IsMap, retained,
  Bool-cases, inl, inr,
}
use torpc.Limiter.{RateLimitConfig, Bucket, RateLimiter, charge, cleanup, Event, call, sweep}
use torpc.Limiter.Buckets.{
  own, kept, verdicts_of, verdicts_of-own, lookup-cleanup, cleanup-IsMap, cleanup-config,
}

-- The clock of a history never goes back, and starts at `now` or later.
abbrev pub Forward : ℕ → List Event → Type 0
Forward now [] = Unit
Forward now (call identifier t ∷ es) = (now ≤ t) × Forward t es
Forward now (sweep t ∷ es) = (now ≤ t) × Forward t es

-- A bucket whose window is over counts for nothing.
own_stale :
    (c : RateLimitConfig) (j : String) (now : ℕ) (b : Bucket) (es : List Event)
    → c.window_duration ≤ now - b.window_start
    → Forward now es
    → own c j (some b) es ≡ own c j none es
unfolding own charge
own_stale c j now b [] over h = refl
own_stale c j now b (call i t ∷ es) over (later, h) =
    ground (arith, own_stale c j t b es (omega arith) h)
own_stale c j now b (sweep t ∷ es) over (later, h) =
    ground (arith, own_stale c j t b es (omega arith) h)

own-retained :
    (c : RateLimitConfig) (j : String) (now : ℕ) (o : Option Bucket) (es : List Event)
    → Forward now es
    → own c j (retained (kept c now) o) es ≡ own c j o es
own-retained c j now none es h = refl
own-retained c j now (some b) es h = elim (Bool-cases (kept c now b)) [
  | inl stays ↦ ground arith
  | inr goes ↦ ground (arith, own_stale c j now b es (ground arith) h)
]

-- Sweeping the table changes no verdict that any identifier will ever see, as long as the clock
-- does not go back.
pub cleanup_invisible :
    (l : RateLimiter) (j : String) (now : ℕ) (es : List Event)
    → IsMap l.requests
    → Forward now es
    → verdicts_of j (cleanup l now) es ≡ verdicts_of j l es
cleanup_invisible l j now es m h = cc (
  verdicts_of-own j (cleanup l now) es (cleanup-IsMap l now m),
  verdicts_of-own j l es m,
  cleanup-config l now,
  lookup-cleanup l now j m,
  own-retained l.config j now (lookup j l.requests) es h,
)
