-- ===== src/Limiter/Burst.antt =====
-- A burst by an identifier that the table does not know: exactly the quota is let through.
use torpc.Common.{
  eq_refl, ltb, ℕ, suc, ◌+◌, ◌-◌, ◌<◌, ◌≤◌, ◌^◌, min, ◌≡◌, String, true, List, [], ◌∷◌, none, some,
  arith, lookup, str_eq, if◌then◌else◌, IsMap, All,
}
use torpc.Limiter.{RateLimitConfig, Bucket, RateLimiter, charge, Event, call, sweep}
use torpc.Limiter.Buckets.{own, verdicts_of, verdicts_of-own}
use torpc.Limiter.Window.{Within, admitted, quota}

-- How many calls of a history are made by `j`.
abbrev pub calls_of : String → List Event → ℕ
calls_of j [] = 0
calls_of j (call i now ∷ es) = let rest = calls_of j es in if str_eq i j then suc rest else rest
calls_of j (sweep now ∷ es) = calls_of j es

-- A bucket that was opened in the window that starts at `from`.
record IsCurrent (c : RateLimitConfig) (from : ℕ) (b : Bucket) : Type 0 where
  opened : from ≤ b.window_start
  used : 1 ≤ b.count
  capped : b.count ≤ quota c

charge-IsCurrent :
    (c : RateLimitConfig) (from now : ℕ) (b : Bucket)
    → c.max_requests < 2 ^ 32
    → from ≤ now
    → now < from + c.window_duration
    → IsCurrent c from b
    → let (b', allowed) = charge c (some b) now in
      IsCurrent c from b'
      × ((if allowed then 1 else 0) + (quota c - b'.count) ≡ quota c - b.count)
      × (allowed ≡ ltb b.count (quota c))
unfolding charge
charge-IsCurrent c from now b w p q v = ground arith

own_current :
    (c : RateLimitConfig) (j : String) (from : ℕ) (b : Bucket) (es : List Event)
    → c.max_requests < 2 ^ 32
    → All (Within from c.window_duration) es
    → IsCurrent c from b
    → admitted (own c j (some b) es) ≡ min (calls_of j es) (quota c - b.count)
unfolding own
own_current c j from b [] w h v = omega arith
own_current c j from b (call i now ∷ es) w ((p, q), h) v =
    let (v', spent, allowed) = charge-IsCurrent c from now b w p q v in
    ground (
      arith,
      own_current c j from (charge c (some b) now).0 es w h v',
      own_current c j from b es w h v,
    )
own_current c j from b (sweep now ∷ es) w ((p, q), h) v =
    ground (arith, own_current c j from b es w h v)

-- The first request of an identifier opens a bucket and is allowed, whatever the limit.
charge-none :
    (c : RateLimitConfig) (now : ℕ)
    → ((charge c none now).1 ≡ true)
      × IsCurrent c now (charge c none now).0
      × ((charge c none now).0.count ≡ 1)
unfolding charge
charge-none c now = ground arith

-- An identifier with no bucket that makes its first call at `from` has exactly as many calls let
-- through, in the window that this call opens, as it makes, up to the quota: the configured limit,
-- but one where that limit is zero. Calls by others and sweeps in between do not matter.
pub burst_exact :
    (l : RateLimiter) (j : String) (from : ℕ) (es : List Event)
    → IsMap l.requests
    → l.config.max_requests < 2 ^ 32
    → lookup j l.requests ≡ none
    → All (Within from l.config.window_duration) es
    → admitted (verdicts_of j l (call j from ∷ es)) ≡ min (suc (calls_of j es)) (quota l.config)
unfolding own
burst_exact l j from es m w fresh h =
    rw (verdicts_of-own j l (call j from ∷ es) m, fresh, own, eq_refl)
      (let (first, v, one) = charge-none l.config from in
        ground (arith, own_current l.config j from (charge l.config none from).0 es w h v))
