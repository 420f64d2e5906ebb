-- ===== src/Security/Settings.antt =====
-- `SecurityConfig` of src/security.rs. `env` is `std::env::var`: a variable that is set to text.
use torpc.Common.{
  ℕ, ◌*◌, String, Bool, true, List, [], ◌∷◌, Option, none, some, ok?, and_then, or_else, parse_u64,
  lower_codes, equal_codes,
}
use torpc.Breaker.{second}

pub record SecurityConfig : Type 0 where
  pub max_body_size : ℕ
  pub request_timeout : ℕ  -- nanoseconds
  pub strict_headers : Bool

unfoldable pub default_config : SecurityConfig
default_config = record {
  max_body_size = 1024 * 1024;
  request_timeout = 30 * second;
  strict_headers = true;
}

-- The first variable that is set; the warning on a deprecated name is a log line.
unfoldable pub first_env_var : (String → Option String) → List String → Option String
first_env_var env [] = none
first_env_var env (name ∷ names) = elim (env name) [
  | some v ↦ some v
  | none ↦ first_env_var env names
]

-- No character outside ASCII has t, r, u or e for its lower case, so the comparison is ASCII's.
abbrev pub is_true_text : String → Bool
is_true_text text = equal_codes (lower_codes text) (b't' ∷ b'r' ∷ b'u' ∷ b'e' ∷ [])

-- `usize` is 64 bits wide.
unfoldable pub from_env : (String → Option String) → SecurityConfig
unfolding first_env_var
from_env env =
    let size = first_env_var env ("MAX_REQUEST_SIZE" ∷ "MAX_BODY_SIZE" ∷ []) in
    let strict = first_env_var env ("STRICT_SECURITY_HEADERS" ∷ "STRICT_HEADERS" ∷ []) in
    record {
      max_body_size = or_else (and_then size (λ s. ok? (parse_u64 s))) (1024 * 1024);
      request_timeout =
          or_else (and_then (env "REQUEST_TIMEOUT") (λ s. ok? (parse_u64 s))) 30 * second;
      strict_headers = or_else (and_then strict (λ s. some (is_true_text s))) true;
    }
