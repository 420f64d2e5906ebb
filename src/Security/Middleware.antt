-- ===== src/Security/Middleware.antt =====
-- The headers that src/security.rs sets on every response, the answer to a request that takes too
-- long, and the two endpoints of the operator.
--
-- Names of headers are in lower case, as the package `http` keeps them. `env` values such as the
-- package's version, and the readings of the clocks, are arguments.
use torpc.Common.{
  ℕ, ◌-◌, ◌/◌, String, not, neg, ℤ, Bool, List, [], ◌∷◌, Option, none, some, keep, str_eq,
}
use torpc.Breaker.{second, state_summary}
use torpc.External.{External}
use torpc.Security.{snapshot}
use torpc.Mev.Client.{circuit_state_summary}
use torpc.Mev.Handler.{MevProxyState}

pub record Response (Body : Type 0) : Type 0 where
  pub status : ℕ
  pub headers : List (String × String)
  pub body : Body

-- `HeaderMap::remove` and `HeaderMap::insert`: every value of the name goes.
unfoldable pub remove : String → List (String × String) → List (String × String)
remove name headers = keep (λ h. not (str_eq h.0 name)) headers

unfoldable pub set : String → String → List (String × String) → List (String × String)
unfolding remove
set name value headers = (name, value) ∷ remove name headers

abbrev pub static_csp : String
static_csp =
    "default-src 'self'; connect-src 'self'; style-src 'self' 'unsafe-inline'; script-src 'self'; img-src 'self' data:; frame-ancestors 'none'; base-uri 'self'; form-action 'self'"

unfoldable pub add_security_headers : {Body : Type 0} → Response Body → Response Body
unfolding set
add_security_headers response = record response {
  headers = remove "server" (
      set "expires" "0" (
        set "pragma" "no-cache" (
          set "cache-control" "no-store, no-cache, must-revalidate" (
            set "referrer-policy" "no-referrer" (
              set "x-xss-protection" "0" (
                set "x-frame-options" "DENY"
                  (set "x-content-type-options" "nosniff" response.headers)))))));
}

-- The layer of `SetResponseHeaderLayer::overriding` for the policy.
unfoldable pub override_csp : {Body : Type 0} → Response Body → Response Body
unfolding set
override_csp response = record response {
  headers = set "content-security-policy" static_csp response.headers;
}

-- The body of the answer to a request that takes too long; its id is null.
pub record TimeoutBody : Type 0 where
  pub jsonrpc : String
  pub code : ℤ
  pub message : String

-- `response` is what the stack below gives within the time, if it does.
unfoldable pub json_rpc_timeout_middleware :
    {Body : Type 0} → (TimeoutBody → Body) → Option (Response Body) → Response Body
json_rpc_timeout_middleware as_body (some response) = response
json_rpc_timeout_middleware as_body none = record {
  status = 504;
  headers = ("content-type", "application/json") ∷ [];
  body = as_body (record { jsonrpc = "2.0"; code = neg 32001; message = "upstream timeout" });
}

-- What the operator's endpoints read: the instant, the time as text, the version of the package, and
-- whether the locks of the two breakers are taken.
pub record Readings : Type 0 where
  pub now : ℕ
  pub timestamp : String
  pub version : String
  pub geth_contended : Bool
  pub mev_contended : Bool

module _ (X : External) where
  open X use {Value, text, number, object}

  unfoldable pub health_check : Readings → MevProxyState Value → Value
  health_check at state = object (
      ("status", text "ok")
      ∷ ("service", text "torpc")
      ∷ ("version", text at.version)
      ∷ ("uptime_seconds", number ((at.now - state.base_state.base.start_time) / second))
      ∷ ("timestamp", text at.timestamp)
      ∷ [])

  abbrev pub numbers : List (String × ℕ) → List (String × Value)
  numbers [] = []
  numbers ((name, n) ∷ rest) = (name, number n) ∷ numbers rest

  -- The status of the relay and the summary of its breaker.
  abbrev pub relay_summary : Readings → MevProxyState Value → String × String
  relay_summary at state = elim state.mev_client [
    | some client ↦ ("configured", circuit_state_summary state.relay at.mev_contended)
    | none ↦ ("disabled", "n/a")
  ]

  unfoldable pub security_metrics : Readings → MevProxyState Value → Value
  security_metrics at state =
      let (mev_relay_status, mev_circuit) = relay_summary at state in
      let base = state.base_state.base in
      object (
        ("security_metrics", object (numbers (snapshot base.metrics)))
        ∷ (
          "circuits",
          object (
              ("geth", text (state_summary base.geth_circuit at.geth_contended))
              ∷ ("mev_relay", text mev_relay_status)
              ∷ ("mev_circuit", text mev_circuit)
              ∷ []),
        )
        ∷ ("uptime_seconds", number ((at.now - base.start_time) / second))
        ∷ ("timestamp", text at.timestamp)
        ∷ [])
