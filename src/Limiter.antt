-- ===== src/Limiter.antt =====
-- The fixed-window rate limiter, src/rate_limit.rs.
--
-- The `HashMap` from identifiers to (count, window start) is an association list; Limiter/Table.antt
-- forgets its order. An `Instant` is a number of nanoseconds, an argument of each operation that reads
-- the clock; `duration_since` saturates at zero, as the truncated subtraction does. The mutex makes
-- each operation atomic, so that concurrent requests are a list of events (`run`).
-- `cleanup` doubles the window; `Duration` would panic where that overflows, which is not modelled.
pub mod Buckets
pub mod Window
pub mod Burst
pub mod Cleanup
pub mod Table
use Prim.Native.String
use torpc.Common.{
  Result, ok, err, decimal, not, ℕ, ◌+◌, ◌-◌, ◌*◌, String, Bool, true, false, List, [], ◌∷◌, Option,
  none, some,
}
use torpc.Common.{u32, ltb, leb, if◌then◌else◌, lookup, insert, keep}

pub record RateLimitConfig : Type 0 where
  pub max_requests : ℕ  -- u32
  pub window_duration : ℕ  -- nanoseconds

-- `RateLimitConfig::default`: 100 requests per minute.
unfoldable pub default_config : RateLimitConfig
default_config = record { max_requests = 100; window_duration = 60_000_000_000 }

-- The value of the map: a request count (u32) and the start of its window.
pub record Bucket : Type 0 where
  pub count : ℕ
  pub window_start : ℕ

pub record RateLimiter : Type 0 where
  pub config : RateLimitConfig
  pub requests : List (String × Bucket)

unfoldable pub new : RateLimitConfig → RateLimiter
new config = record { config = config; requests = [] }

-- What `check_rate_limit` does to the bucket of the identifier: the bucket afterwards and the verdict.
unfoldable pub charge : RateLimitConfig → Option Bucket → ℕ → Bucket × Bool
charge c none now = (record { count = 1; window_start = now }, true)
charge c (some b) now =
    if ltb (now - b.window_start) c.window_duration
    then if leb c.max_requests b.count
      then (b, false)
      else (record b { count = u32 (b.count + 1) }, true)
    else (record { count = 1; window_start = now }, true)

unfoldable pub check_rate_limit : RateLimiter → String → ℕ → RateLimiter × Bool
unfolding charge
check_rate_limit l identifier now =
    let (b, allowed) = charge l.config (lookup identifier l.requests) now in
    (record l { requests = insert identifier b l.requests }, allowed)

unfoldable pub cleanup : RateLimiter → ℕ → RateLimiter
cleanup l now =
    let cutoff = l.config.window_duration * 2 in
    record l { requests = keep (λ e. ltb (now - e.1.window_start) cutoff) l.requests }

-- The identifier of a connection: `peer` is the address and the port of `ConnectInfo`, where the
-- request has one.
unfoldable pub get_request_identifier : Option (String × ℕ) → String
get_request_identifier none = "unknown"
get_request_identifier (some (ip, port)) = String.◌++◌ ip (String.◌++◌ ":" (decimal port))

-- `answer` is what the rest of the stack gives; a refusal is a status code.
unfoldable pub rate_limit_middleware {ℓ} :
    {A : Type ℓ} → RateLimiter → Option (String × ℕ) → ℕ → A → Result ℕ A × RateLimiter
unfolding get_request_identifier
rate_limit_middleware l peer now answer =
    let (charged, allowed) = check_rate_limit l (get_request_identifier peer) now in
    if not allowed then (err 429, charged) else (ok answer, charged)

-- One acquisition of the limiter's mutex.
pub data Event : Type 0 where
  call : String → ℕ → Event
  sweep : ℕ → Event

unfoldable pub step : RateLimiter → Event → RateLimiter
step l (call identifier now) = (check_rate_limit l identifier now).0
step l (sweep now) = cleanup l now

unfoldable pub run : RateLimiter → List Event → RateLimiter
run l [] = l
run l (e ∷ es) = run (step l e) es

-- The verdicts of the calls of a run, in order.
unfoldable pub verdicts : RateLimiter → List Event → List Bool
verdicts l [] = []
verdicts l (call identifier now ∷ es) =
    (check_rate_limit l identifier now).1 ∷ verdicts (step l (call identifier now)) es
verdicts l (sweep now ∷ es) = verdicts (step l (sweep now)) es
