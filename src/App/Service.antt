-- ===== src/App/Service.antt =====
-- The daemon as src/app.rs assembles it: the shared state, the routes of the public listener, the
-- limiter in front of its handlers, and the layers around every response.
--
-- axum's extractor of JSON, `decode`, and the static files, `files`, are given with the environment
-- of a request. `serve` is a request that ends in time; the timeout that may cut a request off is in
-- App/Service/Deadline.antt. The limit on concurrent requests only delays them.
pub mod Growth
pub mod Sends
pub mod Calls
pub mod Layers
pub mod Histories
pub mod Traffic
pub mod Forwards
pub mod Deadline
use torpc.Common.{
  ℕ, String, Bool, true, false, ◌||◌, List, [], ◌∷◌, Option, none, some, Result, ok, err, str_eq,
  ltb, length, if◌then◌else◌, ℤ,
}
use torpc.External.{External}
use torpc.Rpc.{JsonRpcRequest, JsonRpcResponse}
use torpc.Errors.{ProxyResult, into_response}
use torpc.Breaker
use torpc.Limiter
use torpc.Limiter.{RateLimiter, rate_limit_middleware}
use torpc.Proxy.{ProxyState, Node, new_with_write_limit, handle_rpc}
use torpc.Proxy.Effects.{M}
use torpc.Mev.Client.{MevRelayClient, create_mev_client}
use torpc.Mev.Handler.{MevProxyState, MevEnv, on_node, handle_flashbots_with_mev}
use torpc.Security.Middleware.{
  Response, TimeoutBody, json_rpc_timeout_middleware, add_security_headers, override_csp, Readings,
  health_check, security_metrics,
}
use torpc.App.{AppConfig, Template, serve_root}

pub record Service (Value : Type 0) : Type 0 where
  pub rate_limiter : RateLimiter
  pub mev_state : MevProxyState Value

-- The state of the handlers without a relay client, whose breaker is then not asked.
abbrev pub without_mev : {Value : Type 0} → ProxyState → MevProxyState Value
without_mev base = record {
  base_state = record { base = base; wire = [] };
  mev_client = none;
  relay = record { circuit_breaker = Breaker.new; calls = []; sleeps = [] };
}

-- `http` and `key` are what building the relay's HTTP client and reading a signing key give.
abbrev pub mev_state_of :
    {Value : Type 0}
    → Result String (Unit {0})
    → (String → Result String (Unit {0}))
    → AppConfig
    → ProxyState
    → MevProxyState Value
mev_state_of http key config base = elim config.mev_signing_key [
  | none ↦ without_mev base
  | some signing_key ↦
      elim (create_mev_client http (key signing_key) (record {
        relay_url = config.mev_relay_url;
        signing_key = signing_key;
        request_timeout = config.mev_request_timeout;
        blocks_ahead = 1;
      })) [
        | ok (client, breaker) ↦ record {
          base_state = record { base = base; wire = [] };
          mev_client = some client;
          relay = record { circuit_breaker = breaker; calls = []; sleeps = [] };
        }
        | err e ↦ without_mev base
      ]
]

-- `client` is what building the proxy's HTTP client gives.
unfoldable pub build_app :
    {Value : Type 0}
    → Result String (Unit {0})
    → Result String (Unit {0})
    → (String → Result String (Unit {0}))
    → AppConfig
    → ℕ
    → Result String (Service Value)
build_app client http key config now =
    elim (new_with_write_limit client config.geth_url config.flashbots_url
      config.write_method_limit_max config.write_method_limit_window now) [
        | err e ↦ err "failed to construct ProxyState"
        | ok base ↦ ok (record {
          rate_limiter = Limiter.new config.rate_limit;
          mev_state = mev_state_of http key config base;
        })
      ]

pub data Endpoint : Type 0 where
  root : Endpoint
  rpc : Endpoint
  rpc_flashbots : Endpoint

-- A path of the router with one of its methods, with another, or no path of it.
pub data Matched : Type 0 where
  endpoint : Endpoint → Matched
  wrong_method : Matched
  fallback : Matched

-- `get` also takes HEAD.
unfoldable pub matched : String → String → Matched
matched method path =
    let if_posted = λ (e : Endpoint). if str_eq method "POST" then endpoint e else wrong_method in
    if str_eq path "/"
    then if str_eq method "GET" || str_eq method "HEAD" then endpoint root else wrong_method
    else if str_eq path "/rpc" || str_eq path "/rpc/"
    then if_posted rpc
    else if str_eq path "/rpc/flashbots" || str_eq path "/rpc/flashbots/"
    then if_posted rpc_flashbots
    else fallback

pub record HttpRequest : Type 0 where
  pub method : String
  pub path : String
  pub host : Option String
  pub peer : Option (String × ℕ)
  pub body : List ℕ

pub data Body (Value : Type 0) : Type 0 where
  empty : Body Value
  page : Template → Body Value
  json : JsonRpcResponse Value → Body Value
  timeout_error : TimeoutBody → Body Value
  file : List ℕ → Body Value

pub record Visit (Value : Type 0) : Type 0 where
  pub request : HttpRequest
  pub now : ℕ
  pub handler : MevEnv Value
  -- the rejection's status, or the message
  pub decode : List ℕ → Result ℕ (JsonRpcRequest Value)
  pub files : HttpRequest → Response (Body Value)

abbrev pub bare : {Value : Type 0} → ℕ → Response (Body Value)
bare status = record { status = status; headers = []; body = empty }

abbrev pub json_answer :
    {Value : Type 0} → ProxyResult (JsonRpcResponse Value) → Response (Body Value)
json_answer (ok response) = record {
  status = 200;
  headers = ("content-type", "application/json") ∷ [];
  body = json response;
}
json_answer (err e) =
    let answer = into_response e in
    record {
      status = answer.status;
      headers = ("content-type", "application/json") ∷ [];
      body = json answer.body;
    }

-- The routes behind the limiter, those that answer 405 included. `answer` is what the handler gives,
-- and `refuse` answers with the limiter's status.
unfoldable pub rate_limited :
    {Value A : Type 0}
    → (ℕ → A)
    → Visit Value
    → A × MevProxyState Value
    → Service Value
    → A × Service Value
rate_limited {Value} {A} refuse v answer s =
    let checked = rate_limit_middleware s.rate_limiter v.request.peer v.now answer in
    elim checked.0 as (λ _. A × Service Value) [
      | err status ↦ (refuse status, record s { rate_limiter = checked.1 })
      | ok r ↦ (r.0, record { rate_limiter = checked.1; mev_state = r.1 })
    ]

-- `max_body_size` is the limit that the configuration sets on the extractor.
module _ (X : External) (max_body_size : ℕ) where
  open X use {Value}

  abbrev pub on_message :
      Visit Value
      → (JsonRpcRequest Value → M (MevProxyState Value) (JsonRpcResponse Value))
      → MevProxyState Value
      → Response (Body Value) × MevProxyState Value
  on_message v handle s =
      elim (if ltb max_body_size (length v.request.body)
        then err 413
        else v.decode v.request.body) [
          | err status ↦ (bare status, s)
          | ok request ↦ let r = handle request s in (json_answer r.0, r.1)
        ]

  unfoldable pub respond :
      Endpoint → Visit Value → MevProxyState Value → Response (Body Value) × MevProxyState Value
  respond root v s = (
    record {
      status = 200;
      headers = ("content-type", "text/html; charset=utf-8") ∷ [];
      body = page (serve_root v.request.host);
    },
    s,
  )
  respond rpc v s = on_message v (λ r. on_node X (handle_rpc X v.handler.node r)) s
  respond rpc_flashbots v s = on_message v (handle_flashbots_with_mev X v.handler) s

  unfoldable pub serve_at :
      Matched → Visit Value → Service Value → Response (Body Value) × Service Value
  unfolding respond rate_limited
  serve_at (endpoint e) v s = rate_limited bare v (respond e v s.mev_state) s
  serve_at wrong_method v s = rate_limited bare v (bare 405, s.mev_state) s
  serve_at fallback v s = (v.files v.request, s)

  unfoldable pub serve : Visit Value → Service Value → Response (Body Value) × Service Value
  unfolding matched serve_at
  serve v s = serve_at (matched v.request.method v.request.path) v s

-- The layers around the public router, on what it gives within the time.
unfoldable pub public_response :
    {Value : Type 0} → Option (Response (Body Value)) → Response (Body Value)
public_response answer =
    override_csp (add_security_headers (json_rpc_timeout_middleware timeout_error answer))
