-- ===== src/Rpc.antt =====
-- JSON-RPC messages, src/rpc_types.rs. `Value` is the JSON value type of `serde_json`.
use torpc.Common.{String, ℤ, Option, none, some, Result, ok, err, str_eq, not, if◌then◌else◌}

pub record JsonRpcRequest (Value : Type 0) : Type 0 where
  pub jsonrpc : String
  pub method : String
  pub params : Option Value
  pub id : Option Value

pub record JsonRpcError (Value : Type 0) : Type 0 where
  pub code : ℤ  -- i64
  pub message : String
  pub extra : Option Value  -- the field `data`

pub record JsonRpcResponse (Value : Type 0) : Type 0 where
  pub jsonrpc : String
  pub result : Option Value
  pub error : Option (JsonRpcError Value)
  pub id : Option Value

unfoldable pub validate : {Value : Type 0} → JsonRpcRequest Value → Result String (Unit {0})
validate r =
    if not (str_eq r.jsonrpc "2.0")
    then err "Invalid jsonrpc version"
    else if str_eq r.method ""
    then err "Method cannot be empty"
    else ok tt

unfoldable pub success : {Value : Type 0} → Option Value → Value → JsonRpcResponse Value
success id result = record { jsonrpc = "2.0"; result = some result; error = none; id = id }

unfoldable pub error :
    {Value : Type 0} → Option Value → ℤ → String → Option Value → JsonRpcResponse Value
error id code message extra = record {
  jsonrpc = "2.0";
  result = none;
  error = some (record { code = code; message = message; extra = extra });
  id = id;
}
