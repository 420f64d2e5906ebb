-- ===== src/Limiter/Buckets.antt =====
-- The limiter against its specification: one bucket for each identifier, on its own.
use torpc.Common.{
  ℕ, ◌-◌, ◌*◌, ◌≡◌, refl, String, Bool, List, [], ◌∷◌, Option, some, arith, ltb, if◌then◌else◌,
  lookup, str_eq, eq_iff, IsMap, insert-IsMap, keep-IsMap, lookup-insert, lookup-keep, retained,
}
use torpc.Limiter.{
  RateLimitConfig, Bucket, RateLimiter, charge, check_rate_limit, cleanup, Event, call, sweep, step,
}

-- The verdicts of the calls that one identifier makes in a run of the limiter, in order.
unfoldable pub verdicts_of : String → RateLimiter → List Event → List Bool
verdicts_of j l [] = []
verdicts_of j l (call identifier now ∷ es) =
    let rest = verdicts_of j (step l (call identifier now)) es in
    if str_eq identifier j then (check_rate_limit l identifier now).1 ∷ rest else rest
verdicts_of j l (sweep now ∷ es) = verdicts_of j (step l (sweep now)) es

-- Whether `cleanup` at the instant `now` keeps a bucket.
abbrev pub kept : RateLimitConfig → ℕ → Bucket → Bool
kept c now b = ltb (now - b.window_start) (c.window_duration * 2)

-- The specification: the verdicts of identifier `j` from its own bucket, if it has one, and its own
-- calls. Calls by others are passed over, and a sweep drops the bucket or leaves it.
unfoldable pub own : RateLimitConfig → String → Option Bucket → List Event → List Bool
own c j o [] = []
own c j o (call identifier now ∷ es) =
    let mine = (charge c o now).1 ∷ own c j (some (charge c o now).0) es in
    let theirs = own c j o es in if str_eq identifier j then mine else theirs
own c j o (sweep now ∷ es) = own c j (retained (kept c now) o) es

module _ (l : RateLimiter) (identifier : String) (now : ℕ) where
  pub lookup-check :
      (j : String)
      → lookup j (check_rate_limit l identifier now).0.requests ≡ (
          if str_eq identifier j
          then some (charge l.config (lookup identifier l.requests) now).0
          else lookup j l.requests)
  unfolding check_rate_limit
  lookup-check j = lookup-insert identifier j _ l.requests

  pub check-verdict :
      (check_rate_limit l identifier now).1 ≡ (charge l.config (lookup identifier l.requests) now).1
  unfolding check_rate_limit
  check-verdict = refl

  pub check-config : (check_rate_limit l identifier now).0.config ≡ l.config
  unfolding check_rate_limit
  check-config = refl

  pub check-IsMap : IsMap l.requests → IsMap (check_rate_limit l identifier now).0.requests
  unfolding check_rate_limit
  check-IsMap h = insert-IsMap identifier _ l.requests h

pub lookup-cleanup :
    (l : RateLimiter) (now : ℕ) (j : String)
    → IsMap l.requests
    → lookup j (cleanup l now).requests ≡ retained (kept l.config now) (lookup j l.requests)
unfolding cleanup
lookup-cleanup l now j h = lookup-keep (kept l.config now) j l.requests h

pub cleanup-IsMap : (l : RateLimiter) (now : ℕ) → IsMap l.requests → IsMap (cleanup l now).requests
unfolding cleanup
cleanup-IsMap l now h = keep-IsMap (kept l.config now) l.requests h

pub cleanup-config : (l : RateLimiter) (now : ℕ) → (cleanup l now).config ≡ l.config
unfolding cleanup
cleanup-config l now = refl

-- Whatever the other identifiers do and whenever the table is swept, the verdicts that an
-- identifier sees are those of its own bucket under its own calls.
pub verdicts_of-own :
    (j : String) (l : RateLimiter) (es : List Event)
    → IsMap l.requests
    → verdicts_of j l es ≡ own l.config j (lookup j l.requests) es
unfolding verdicts_of own step
verdicts_of-own j l [] h = refl
verdicts_of-own j l (call i now ∷ es) h = ground (
  arith,
  verdicts_of-own j (check_rate_limit l i now).0 es (check-IsMap l i now h),
  lookup-check l i now j,
  check-verdict l i now,
  check-config l i now,
  eq_iff i j,
)
verdicts_of-own j l (sweep now ∷ es) h = ground (
  arith,
  verdicts_of-own j (cleanup l now) es (cleanup-IsMap l now h),
  lookup-cleanup l now j h,
  cleanup-config l now,
)
