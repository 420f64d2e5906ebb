-- ===== src/Tests/LimiterTests.antt =====
-- The rate limiter on concrete histories.
use torpc.Common.{
  IsMap, ◌*◌, ◌≤◌, ◌≡◌, refl, true, false, List, [], ◌∷◌, min, lookup, insert, arith,
}
use torpc.Limiter.{
  RateLimitConfig, RateLimiter, Event, call, sweep, new, check_rate_limit, cleanup, step, run,
  verdicts,
}
use torpc.Limiter.Buckets.{own, verdicts_of, verdicts_of-own, check-IsMap}
use torpc.Limiter.Table.{view, checks_commute}
use torpc.Limiter.Window.{admitted, quota, window_bound}
use torpc.Limiter.Burst.{burst_exact}
use torpc.Limiter.Cleanup.{cleanup_invisible}

abbrev three : RateLimitConfig
three = record { max_requests = 3; window_duration = 100 }

abbrev none_allowed : RateLimitConfig
none_allowed = record { max_requests = 0; window_duration = 100 }

-- One bucket with two requests in it.
abbrev busy : RateLimiter
busy = record { config = three; requests = ("a", record { count = 2; window_start = 0 }) ∷ [] }

abbrev history : List Event
history = call "a" 50 ∷ call "b" 60 ∷ call "a" 70 ∷ sweep 80 ∷ call "a" 120 ∷ []

-- `test_rate_limiter_blocks_over_limit`, and the window that follows.
blocks :
    verdicts
      (new three)
      (call "t" 1 ∷ call "t" 2 ∷ call "t" 3 ∷ call "t" 4 ∷ call "u" 5 ∷ call "t" 101 ∷ [])
    ≡ true ∷ true ∷ true ∷ false ∷ true ∷ true ∷ []
unfolding verdicts new check_rate_limit step lookup insert
blocks = refl

-- A limit of zero still lets the first request of a window through.
zero_limit : verdicts (new none_allowed) (call "t" 1 ∷ call "t" 2 ∷ []) ≡ true ∷ false ∷ []
unfolding verdicts new check_rate_limit step lookup insert
zero_limit = refl

-- `test_cleanup_removes_old_entries`
cleaned :
    (run (new three) (call "old" 0 ∷ call "fresh" 199 ∷ sweep 200 ∷ [])).requests
    ≡ ("fresh", record { count = 1; window_start = 199 }) ∷ []
unfolding run new check_rate_limit cleanup step lookup insert
cleaned = refl

verdicts_of-own_example :
    verdicts_of "a" busy history ≡ own three "a" (lookup "a" busy.requests) history
unfolding lookup
verdicts_of-own_example = verdicts_of-own "a" busy history (refl, tt)

window_bound_example : admitted (verdicts_of "a" busy history) ≤ 2 * quota three
unfolding lookup
window_bound_example = window_bound busy "a" 40 history (refl, tt) (omega arith) (omega arith)

burst_exact_example : admitted (verdicts_of "b" busy (call "b" 50 ∷ history)) ≡ min 2 (quota three)
unfolding lookup
burst_exact_example = burst_exact busy "b" 50 history (refl, tt) (omega arith) refl (omega arith)

cleanup_invisible_example : verdicts_of "a" (cleanup busy 30) history ≡ verdicts_of "a" busy history
unfolding lookup
cleanup_invisible_example = cleanup_invisible busy "a" 30 history (refl, tt) (omega arith)

abbrev busy-IsMap : IsMap busy.requests
unfolding lookup
busy-IsMap = (refl, tt)

checks_commute_example :
    let one = check_rate_limit busy "a" 50 in
    let two = check_rate_limit busy "b" 60 in
    let one_m = check-IsMap busy "a" 50 busy-IsMap in
    let two_m = check-IsMap busy "b" 60 busy-IsMap in
    (view (check_rate_limit one.0 "b" 60).0 (check-IsMap one.0 "b" 60 one_m)
      ≡ view (check_rate_limit two.0 "a" 50).0 (check-IsMap two.0 "a" 50 two_m))
    × ((check_rate_limit one.0 "b" 60).1 ≡ two.1)
    × ((check_rate_limit two.0 "a" 50).1 ≡ one.1)
checks_commute_example = checks_commute busy busy-IsMap "a" "b" 50 60 refl
