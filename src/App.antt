-- ===== src/App.antt =====
-- The configuration and the assembly of the daemon, src/app.rs.
--
-- `env` is `std::env::var`: the variables that are set to text.
pub mod Environment
pub mod Service
pub mod Start
use torpc.Common.{
  ℕ, ◌*◌, String, Bool, List, [], ◌∷◌, Option, none, some, Result, ok, err, ok?, and_then, or_else,
  u32, parse_u64, before_mark, lower_codes, ends_with_codes, if◌then◌else◌,
}
use torpc.Breaker.{second}
use torpc.Limiter.{RateLimitConfig}
use torpc.Proxy.{write_method_default_requests, write_method_default_window_secs}
use torpc.Security.Settings
use torpc.Security.Settings.{SecurityConfig}

pub record AppConfig : Type 0 where
  pub geth_url : String
  pub flashbots_url : String
  pub bind_addr : String
  pub admin_bind_addr : String
  pub mev_signing_key : Option String
  pub mev_relay_url : String
  pub mev_request_timeout : ℕ
  pub rate_limit : RateLimitConfig
  pub write_method_limit_max : ℕ  -- u32
  pub write_method_limit_window : ℕ
  pub max_concurrent : ℕ  -- usize, 64 bits wide
  pub security : SecurityConfig
  pub static_dir : String

unfoldable pub env_u64 : (String → Option String) → String → ℕ → ℕ
env_u64 env name default = or_else (and_then (env name) (λ raw. ok? (parse_u64 raw))) default

-- `AppConfig::from_env`; `as u32` keeps the low 32 bits.
unfoldable pub from_env : (String → Option String) → AppConfig
unfolding env_u64
from_env env =
    let flashbots_url = or_else (env "FLASHBOTS_URL") "https://relay.flashbots.net" in
    record {
      geth_url = or_else (env "GETH_URL") "http://127.0.0.1:8545";
      flashbots_url = flashbots_url;
      bind_addr = or_else (env "BIND_ADDR") "127.0.0.1:8080";
      admin_bind_addr = or_else (env "ADMIN_BIND_ADDR") "127.0.0.1:9001";
      mev_signing_key = env "FLASHBOTS_SIGNING_KEY";
      mev_relay_url = or_else (env "FLASHBOTS_RELAY_URL") flashbots_url;
      mev_request_timeout = env_u64 env "FLASHBOTS_REQUEST_TIMEOUT" 5 * second;
      rate_limit = record {
        max_requests = u32 (env_u64 env "RATE_LIMIT_REQUESTS" 100);
        window_duration = env_u64 env "RATE_LIMIT_WINDOW" 60 * second;
      };
      write_method_limit_max =
          u32 (env_u64 env "WRITE_RATE_LIMIT_REQUESTS" write_method_default_requests);
      write_method_limit_window =
          env_u64 env "WRITE_RATE_LIMIT_WINDOW" write_method_default_window_secs * second;
      max_concurrent = env_u64 env "MAX_CONCURRENT_CONNECTIONS" 256;
      security = Settings.from_env env;
      static_dir = "static";
    }

unfoldable pub for_testing : String → AppConfig
for_testing geth_url = record {
  geth_url = geth_url;
  flashbots_url = "http://127.0.0.1:1";
  bind_addr = "127.0.0.1:0";
  admin_bind_addr = "127.0.0.1:0";
  mev_signing_key = none;
  mev_relay_url = "http://127.0.0.1:1";
  mev_request_timeout = 2 * second;
  rate_limit = record { max_requests = 1000; window_duration = 60 * second };
  write_method_limit_max = 100;
  write_method_limit_window = 60 * second;
  max_concurrent = 32;
  security = Settings.default_config;
  static_dir = "static";
}

-- The two templates of `/`.
pub data Template : Type 0 where
  index_operator : Template
  index_user : Template

-- `host` is the header `Host`, where it is text.
unfoldable pub serve_root : Option String → Template
serve_root host =
    let hostname = lower_codes (before_mark b':' (or_else host "")) in
    if ends_with_codes hostname (b'.' ∷ b'o' ∷ b'n' ∷ b'i' ∷ b'o' ∷ b'n' ∷ [])
    then index_user
    else index_operator
