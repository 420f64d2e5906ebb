-- ===== src/Security.antt =====
-- The security counters of src/security.rs. Each is an `AtomicU64`, and an increment is one
-- atomic step that wraps around.
pub mod Settings
pub mod Middleware
use torpc.Common.{ℕ, ◌+◌, String, List, [], ◌∷◌, u64}

pub record SecurityMetrics : Type 0 where
  pub blocked_requests_total : ℕ
  pub rate_limit_hits : ℕ
  pub oversized_requests : ℕ
  pub invalid_methods : ℕ
  pub suspicious_patterns : ℕ

unfoldable pub new : SecurityMetrics
new = record {
  blocked_requests_total = 0;
  rate_limit_hits = 0;
  oversized_requests = 0;
  invalid_methods = 0;
  suspicious_patterns = 0;
}

unfoldable pub increment_blocked_requests : SecurityMetrics → SecurityMetrics
increment_blocked_requests m = record m {
  blocked_requests_total = u64 (m.blocked_requests_total + 1);
}

unfoldable pub increment_rate_limit_hits : SecurityMetrics → SecurityMetrics
increment_rate_limit_hits m = record m { rate_limit_hits = u64 (m.rate_limit_hits + 1) }

unfoldable pub increment_oversized_requests : SecurityMetrics → SecurityMetrics
increment_oversized_requests m = record m { oversized_requests = u64 (m.oversized_requests + 1) }

unfoldable pub increment_invalid_methods : SecurityMetrics → SecurityMetrics
increment_invalid_methods m = record m { invalid_methods = u64 (m.invalid_methods + 1) }

unfoldable pub increment_suspicious_patterns : SecurityMetrics → SecurityMetrics
increment_suspicious_patterns m = record m { suspicious_patterns = u64 (m.suspicious_patterns + 1) }

-- The counters under the names that `/metrics` reports.
unfoldable pub snapshot : SecurityMetrics → List (String × ℕ)
snapshot m =
    ("blocked_requests_total", m.blocked_requests_total)
    ∷ ("rate_limit_hits", m.rate_limit_hits)
    ∷ ("oversized_requests", m.oversized_requests)
    ∷ ("invalid_methods", m.invalid_methods)
    ∷ ("suspicious_patterns", m.suspicious_patterns)
    ∷ []
