-- ===== src/Errors/Codes.antt =====
-- What a client can tell from an error's code and status.
use torpc.Common.{ap, ℕ, ◌≤◌, ◌<◌, ◌≡◌, ◌↔◌, refl, ◌⊎◌, neg, none, some, arith}
use torpc.Errors.{
  ProxyError, invalid_request, method_not_allowed, rate_limit_exceeded, upstream_error, json_error,
  http_error, internal_error, mev_relay_error, bundle_simulation_error, flashbots_auth_error,
}
use torpc.Errors.{to_json_rpc_code, to_string, into_response}

-- The variant of an error, with its text forgotten.
abbrev pub variant : ProxyError → ℕ
variant (invalid_request m) = 0
variant (method_not_allowed m) = 1
variant rate_limit_exceeded = 2
variant (upstream_error m) = 3
variant (json_error m) = 4
variant (http_error m) = 5
variant (internal_error m) = 6
variant (mev_relay_error m) = 7
variant (bundle_simulation_error m) = 8
variant flashbots_auth_error = 9

-- Two errors have the same JSON-RPC code exactly when they are of the same variant.
pub to_json_rpc_code-variant :
    (e f : ProxyError) → (to_json_rpc_code e ≡ to_json_rpc_code f) ↔ (variant e ≡ variant f)
unfolding to_json_rpc_code
to_json_rpc_code-variant e f = ground arith

code_number : (e : ProxyError) → (n : ℕ) × (32000 ≤ n) × (n ≤ 32768) × (to_json_rpc_code e ≡ neg n)
unfolding to_json_rpc_code
code_number (invalid_request m) = (32600, omega arith, omega arith, refl)
code_number (method_not_allowed m) = (32601, omega arith, omega arith, refl)
code_number rate_limit_exceeded = (32000, omega arith, omega arith, refl)
code_number (json_error m) = (32700, omega arith, omega arith, refl)
code_number (upstream_error m) = (32001, omega arith, omega arith, refl)
code_number (http_error m) = (32002, omega arith, omega arith, refl)
code_number (internal_error m) = (32603, omega arith, omega arith, refl)
code_number (mev_relay_error m) = (32003, omega arith, omega arith, refl)
code_number (bundle_simulation_error m) = (32004, omega arith, omega arith, refl)
code_number flashbots_auth_error = (32005, omega arith, omega arith, refl)

-- Every error is answered with a status of 400 to 599, below 500 exactly for the four errors of the
-- client; the body is a JSON-RPC error with no result, a null id, and a code between -32768 and
-- -32000, the band that JSON-RPC 2.0 reserves.
pub into_response_lem :
    {Value : Type 0} (e : ProxyError)
    → let a = into_response {Value = Value} e in
      (400 ≤ a.status)
      × (a.status < 600)
      × ((a.status < 500) ↔ ((variant e ≡ 0) ⊎ (variant e ≡ 1) ⊎ (variant e ≡ 2) ⊎ (variant e ≡ 4)))
      × (a.body.result ≡ none)
      × (a.body.id ≡ none)
      × ((n : ℕ) × (32000 ≤ n)
          × (n ≤ 32768)
          × (a.body.error ≡ some (record { code = neg n; message = to_string e; extra = none })))
unfolding into_response to_json_rpc_code
into_response_lem e =
    let (n, low, high, same) = code_number e in
    (
      ground arith,
      ground arith,
      (ground arith, ground arith),
      refl,
      refl,
      (
        n,
        low,
        high,
        ap (λ c. some (record { code = c; message = to_string e; extra = none })) same,
      ),
    )
