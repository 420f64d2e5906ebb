-- ===== src/App/Start.antt =====
-- The start of the daemon, src/main.rs, up to where it serves, and the operator's listener of
-- src/app.rs.
--
-- `Sockets` is how a socket address is read, whether it is a loopback address, whether its port is 0,
-- and what binding a listener to it gives, while the daemon has listeners at other addresses.
pub mod Guards
pub mod Shutdown
use Prim.Native.String
use torpc.Common.{
  ◌>>=◌, ◌>>◌, ℕ, String, Bool, not, List, [], ◌∷◌, ◌++◌, Option, none, some, Result, ok, err,
  str_eq, ◌||◌, if◌then◌else◌,
}
use torpc.External.{External}
use torpc.Mev.Handler.{MevProxyState}
use torpc.Security.Middleware.{Readings, health_check, security_metrics}
use torpc.Tor
use torpc.Tor.{Files, Action, check_configuration}
use torpc.App.{AppConfig, from_env}
use torpc.App.Service.{Service, build_app}

pub record Sockets : Type 0 where
  pub parse_addr : String → Result String String
  pub is_loopback : String → Bool
  pub is_any_port : String → Bool
  pub bind : List String → String → Result String (Unit {0})

-- The addresses that are served, the public one first, and the state behind them.
pub record Running (Value : Type 0) : Type 0 where
  pub public_addr : String
  pub admin_addr : String
  pub service : Service Value

abbrev pub context : {A : Type 0} → String → Result String A → Result String A
context message (ok a) = ok a
context message (err e) = err message

-- The addresses, read and looked at: the operator's endpoints are served on a loopback address only.
unfoldable pub listen : Sockets → AppConfig → Result String (String × String)
listen sockets config = do
  public_addr ←
      context (String.◌++◌ "invalid BIND_ADDR: " config.bind_addr)
        (sockets.parse_addr config.bind_addr)
  admin_addr ←
      context (String.◌++◌ "invalid ADMIN_BIND_ADDR: " config.admin_bind_addr)
        (sockets.parse_addr config.admin_bind_addr)
  if not (sockets.is_loopback admin_addr)
      then err (
          String.◌++◌ "ADMIN_BIND_ADDR (" (
            String.◌++◌ admin_addr
              ") must be a loopback address; /health and /metrics expose operator state and are not safe on a public interface"))
      else ok tt
  context (String.◌++◌ "failed to bind " public_addr) (sockets.bind [] public_addr)
  context (String.◌++◌ "failed to bind " admin_addr) (sockets.bind (public_addr ∷ []) admin_addr)
  ok (public_addr, admin_addr)

unfoldable pub main :
    {Value : Type 0}
    → Sockets
    → Files
    → Result String (Unit {0})
    → Result String (Unit {0})
    → (String → Result String (Unit {0}))
    → (String → Option String)
    → ℕ
    → Result String (Running Value)
unfolding listen
main sockets fs client http key env now = do
  let config = from_env env
  service ← build_app client http key config now
  context "Tor configuration check failed; see error above for the offending line"
      (check_configuration Tor.new fs).0
  addresses ← listen sockets config
  ok (record { public_addr = addresses.0; admin_addr = addresses.1; service = service })

module _ (X : External) where
  open X use {Value}

  -- What the operator's listener answers with status 200: none where it has no such route.
  unfoldable pub serve_admin : Readings → String → String → MevProxyState Value → Option Value
  serve_admin at method path state =
      if not (str_eq method "GET" || str_eq method "HEAD")
      then none
      else if str_eq path "/health"
      then some (health_check X at state)
      else if str_eq path "/metrics"
      then some (security_metrics X at state)
      else none
