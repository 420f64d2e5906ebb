-- ===== src/App/Environment.antt =====
-- What the daemon makes of the environment.
use torpc.Common.{ℕ, ◌*◌, ◌^◌, ◌<◌, ◌≡◌, refl, ap, String, Option, some, u32, decimal}
use torpc.Common.RoundTrip.{parse_u64-decimal}
use torpc.Breaker.{second}
use torpc.App.{env_u64, from_env}

pub env_u64-decimal :
    (env : String → Option String) (name : String) (default n : ℕ)
    → n < 2 ^ 64
    → env name ≡ some (decimal n)
    → env_u64 env name default ≡ n
unfolding env_u64
env_u64-decimal env name default n h set = rw (env_u64, set, parse_u64-decimal n h) refl

-- A rate limit that is written in the environment as decimal u64 numbers is in force with that
-- window, in seconds, and with the number of requests modulo 2 ^ 32; so is a limit for the
-- methods that write.
pub limits_from_env :
    (env : String → Option String) (requests window writes write_window : ℕ)
    → requests < 2 ^ 64
    → window < 2 ^ 64
    → writes < 2 ^ 64
    → write_window < 2 ^ 64
    → env "RATE_LIMIT_REQUESTS" ≡ some (decimal requests)
    → env "RATE_LIMIT_WINDOW" ≡ some (decimal window)
    → env "WRITE_RATE_LIMIT_REQUESTS" ≡ some (decimal writes)
    → env "WRITE_RATE_LIMIT_WINDOW" ≡ some (decimal write_window)
    → ((from_env env).rate_limit.max_requests ≡ u32 requests)
      × ((from_env env).rate_limit.window_duration ≡ window * second)
      × ((from_env env).write_method_limit_max ≡ u32 writes)
      × ((from_env env).write_method_limit_window ≡ write_window * second)
unfolding from_env
limits_from_env env r w x y hr hw hx hy er ew ex ey = (
  ap u32 (env_u64-decimal env _ _ r hr er),
  ap (λ s. s * second) (env_u64-decimal env _ _ w hw ew),
  ap u32 (env_u64-decimal env _ _ x hx ex),
  ap (λ s. s * second) (env_u64-decimal env _ _ y hy ey),
)
