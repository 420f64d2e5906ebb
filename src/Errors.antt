-- ===== src/Errors.antt =====
-- The daemon's errors, src/error.rs: their JSON-RPC codes, texts and HTTP answers.
pub mod Codes
use Prim.Native.String
use torpc.Common.{ℕ, String, ℤ, neg, none, Option, Result}
use torpc.Rpc
use torpc.Rpc.{JsonRpcResponse}

pub data ProxyError : Type 0 where
  invalid_request : String → ProxyError
  method_not_allowed : String → ProxyError
  rate_limit_exceeded : ProxyError
  upstream_error : String → ProxyError
  json_error : String → ProxyError
  http_error : String → ProxyError
  internal_error : String → ProxyError
  mev_relay_error : String → ProxyError
  bundle_simulation_error : String → ProxyError
  flashbots_auth_error : ProxyError

abbrev pub ProxyResult {ℓ} : Type ℓ → Type ℓ
ProxyResult A = Result ProxyError A

unfoldable pub to_json_rpc_code : ProxyError → ℤ
to_json_rpc_code (invalid_request m) = neg 32600
to_json_rpc_code (method_not_allowed m) = neg 32601
to_json_rpc_code rate_limit_exceeded = neg 32000
to_json_rpc_code (json_error m) = neg 32700
to_json_rpc_code (upstream_error m) = neg 32001
to_json_rpc_code (http_error m) = neg 32002
to_json_rpc_code (internal_error m) = neg 32603
to_json_rpc_code (mev_relay_error m) = neg 32003
to_json_rpc_code (bundle_simulation_error m) = neg 32004
to_json_rpc_code flashbots_auth_error = neg 32005

-- The `Display` text that `thiserror` derives from the `#[error]` attributes.
unfoldable pub to_string : ProxyError → String
to_string (invalid_request m) = String.◌++◌ "Invalid JSON-RPC request: " m
to_string (method_not_allowed m) = String.◌++◌ "Method not allowed: " m
to_string rate_limit_exceeded = "Rate limit exceeded"
to_string (upstream_error m) = String.◌++◌ "Upstream connection error: " m
to_string (json_error m) = String.◌++◌ "JSON parsing error: " m
to_string (http_error m) = String.◌++◌ "HTTP request error: " m
to_string (internal_error m) = String.◌++◌ "Internal server error: " m
to_string (mev_relay_error m) = String.◌++◌ "MEV relay error: " m
to_string (bundle_simulation_error m) = String.◌++◌ "Bundle simulation failed: " m
to_string flashbots_auth_error = "Flashbots authentication failed"

unfoldable pub to_json_rpc_response :
    {Value : Type 0} → ProxyError → Option Value → JsonRpcResponse Value
unfolding Rpc.error
to_json_rpc_response e id = Rpc.error id (to_json_rpc_code e) (to_string e) none

-- The status code of `into_response`.
unfoldable pub status_code : ProxyError → ℕ
status_code (invalid_request m) = 400
status_code (method_not_allowed m) = 405
status_code rate_limit_exceeded = 429
status_code (json_error m) = 400
status_code _ = 500

pub record HttpAnswer (Value : Type 0) : Type 0 where
  pub status : ℕ
  pub body : JsonRpcResponse Value

unfoldable pub into_response : {Value : Type 0} → ProxyError → HttpAnswer Value
unfolding to_json_rpc_response status_code
into_response e = record { status = status_code e; body = to_json_rpc_response e none }
