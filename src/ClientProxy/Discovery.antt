-- ===== src/ClientProxy/Discovery.antt =====
-- The discovery server, torpc-proxy/torpc-proxy-core/src/proxy.rs: whether it starts, its token, and
-- the answer to a request.
--
-- `render` is how `serde_json` prints a value, and `version` the package's version. The texts that
-- are compared are ASCII: a token is hexadecimal, and a header's value is taken only where `to_str`
-- gives one. The accept loop is not modelled.
pub mod Access
pub mod Servers
use Prim.Native.String
use torpc.Common.{
  and_then, or_else, ok?, ℕ, ◌*◌, ◌+◌, ◌/◌, ◌%◌, String, Bool, true, false, not, ◌||◌, List, [],
  ◌∷◌, Option, none, some, Result, ok, err, length, ◌==◌, str_eq, if◌then◌else◌, bit_or, bit_xor,
  as_bytes, digit_char, parse_u16,
}
use torpc.External.{External}
use torpc.ClientProxy.Forward.{ProxyConfig, HeaderMap}

-- The loop of `constant_time_eq`.
unfoldable pub collect_diff : ℕ → List ℕ → List ℕ → ℕ
collect_diff diff (x ∷ xs) (y ∷ ys) = collect_diff (bit_or diff (bit_xor x y)) xs ys
collect_diff diff [] ys = diff
collect_diff diff (x ∷ xs) [] = diff

unfoldable pub constant_time_eq : List ℕ → List ℕ → Bool
unfolding collect_diff
constant_time_eq a b = if not (length a == length b) then false else collect_diff 0 a b == 0

-- The token of the random bytes: two hexadecimal digits for each.
unfoldable pub generate_discovery_token : List ℕ → String
generate_discovery_token [] = ""
generate_discovery_token (b ∷ bytes) =
    String.◌∷◌ (digit_char (b / 16))
      (String.◌∷◌ (digit_char (b % 16)) (generate_discovery_token bytes))

-- What is done to the file of the token: it is written with the permissions of a new file, and then
-- kept to its owner.
pub data FileAction : Type 0 where
  written : String → FileAction
  restricted : FileAction

-- `runtime_dir` is the variable XDG_RUNTIME_DIR; `write` and `set_permissions` are what these give.
unfoldable pub persist_discovery_token :
    Option String
    → String
    → Result String (Unit {0})
    → Result String (Unit {0})
    → String
    → Result String String × List FileAction
persist_discovery_token runtime_dir temp_dir write set_permissions token =
    let path = String.◌++◌ (or_else runtime_dir temp_dir) "/torpc-discovery.token" in
    elim write as (λ _. Result String String × List FileAction) [
      | err e ↦ (err "writing discovery token", [])
      | ok u ↦ elim set_permissions as (λ _. Result String String × List FileAction) [
        | err e ↦ (err "setting token permissions", written token ∷ [])
        | ok v ↦ (ok path, written token ∷ restricted ∷ [])
      ]
    ]

-- The port that the server listens on: none where it is not enabled.
unfoldable pub discovery_port : (String → Option String) → Option ℕ
discovery_port env =
    let port = or_else (and_then (env "TORPC_DISCOVERY_PORT") (λ p. ok? (parse_u16 p))) 8081 in
    if str_eq (or_else (env "TORPC_DISCOVERY_ENABLE") "") "true" then some port else none

pub record DiscoveryRequest : Type 0 where
  pub method : String
  pub path : String
  pub token : Option String  -- the header x-torpc-token, where it is text

pub record DiscoveryReply : Type 0 where
  pub status : ℕ
  pub headers : HeaderMap
  pub body : String

abbrev pub csp : String × String
csp = ("content-security-policy", "default-src 'none'; connect-src 'self'")

module _ (X : External) (render : External.Value X → String) (version : String) where
  open X use {Value, text, object}

  abbrev pub descriptor : ProxyConfig → Value
  descriptor config = object (
      ("status", text "running")
      ∷ (
        "proxy",
        object (("listen_addr", text config.listen_addr) ∷ ("version", text version) ∷ []),
      )
      ∷ ("suggested_rpc_url", text (String.◌++◌ "http://" config.listen_addr))
      ∷ [])

  abbrev pub is_provided : Option String → String → Bool
  is_provided none expected_token = false
  is_provided (some p) expected_token = constant_time_eq (as_bytes p) (as_bytes expected_token)

  unfoldable pub discovery_handler : DiscoveryRequest → ProxyConfig → String → DiscoveryReply
  unfolding constant_time_eq
  discovery_handler req config expected_token =
      if str_eq req.method "OPTIONS"
      then record { status = 204; headers = csp ∷ []; body = "" }
      else if not (str_eq req.method "GET") || not (str_eq req.path "/api/discovery")
      then record { status = 404; headers = csp ∷ []; body = "Not Found" }
      else if not (is_provided req.token expected_token)
      then record { status = 401; headers = csp ∷ []; body = "Unauthorized" }
      else record {
        status = 200;
        headers = ("content-type", "application/json") ∷ csp ∷ [];
        body = render (descriptor config);
      }
