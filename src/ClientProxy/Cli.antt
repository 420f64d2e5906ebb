-- ===== src/ClientProxy/Cli.antt =====
-- The command line client, torpc-proxy/torpc-proxy-cli/src/main.rs.
--
-- A `System` is what the packages `dirs`, `toml` and `tokio-socks` and the file system give:
-- the user's directory of configurations, which paths exist, the text of a file, the reading of a
-- socket address, and a connection through Tor within its thirty seconds. Log lines are not
-- modelled, but for the exit code of a start without an endpoint.
use Prim.Native.String
use torpc.Common.{
  ℕ, String, Bool, List, [], ◌∷◌, ◌++◌, Option, none, some, Result, ok, err, or_else, is_empty_text,
  decimal, if◌then◌else◌,
}
use torpc.ClientProxy.Forward.{ProxyConfig}
use torpc.ClientProxy.Settings.{Toml, Config, default_config, load_from_file, tor_proxy_addr}

pub data Probe : Type 0 where
  connected : Probe
  failed : String → Probe
  timed_out : Probe

pub record System : Type 0 where
  pub config_dir : Option String
  pub exists : String → Bool
  pub read : String → Result String String
  pub toml : Toml
  pub parse_addr : String → Result String String
  pub connect : String → String → Probe

-- The file that the client reads: the one it is told of, the user's where it exists, or one in the
-- working directory.
unfoldable pub resolve_config_path : System → Option String → String
resolve_config_path sys (some path) = path
resolve_config_path sys none = elim sys.config_dir [
  | none ↦ "torpc-proxy.toml"
  | some d ↦
      let user = String.◌++◌ d "/torpc-proxy/config.toml" in
      if sys.exists user then user else "torpc-proxy.toml"
]

abbrev pub load_file : System → String → Result String Config
load_file sys path = elim (sys.read path) [ err e ↦ err e | ok text ↦ load_from_file sys.toml text ]

pub record Overrides : Type 0 where
  pub port : Option ℕ  -- u16
  pub onion : Option String
  pub tor_host : Option String
  pub tor_port : Option ℕ  -- u16

-- The configuration with what the command line says in its place.
unfoldable pub overridden : Overrides → Config → Config
overridden o config = record config {
  port = or_else o.port config.port;
  onion_endpoint = or_else o.onion config.onion_endpoint;
  tor_proxy_host = or_else o.tor_host config.tor_proxy_host;
  tor_proxy_port = or_else o.tor_port config.tor_proxy_port;
}

-- How `start_proxy` ends before it serves, or the configuration that it serves with.
pub data Started : Type 0 where
  refused : String → Started
  exits : ℕ → Started
  serves : ProxyConfig → Started

unfoldable pub start_proxy : System → String → Overrides → Started
unfolding overridden
start_proxy sys config_path o =
    let loaded = if sys.exists config_path then load_file sys config_path else ok default_config in
    elim loaded [
      | err e ↦ refused "Failed to load configuration"
      | ok file ↦
          let config = overridden o file in
          if is_empty_text config.onion_endpoint
          then exits 1
          else serves (record {
            listen_addr = String.◌++◌ "127.0.0.1:" (decimal config.port);
            tor_proxy = tor_proxy_addr sys.parse_addr config;
            onion_endpoint = config.onion_endpoint;
          })
    ]

-- The result of the two probes, and what was connected to, through which proxy.
abbrev pub Probed : Type 0
Probed = Result String (Unit {0}) × List (String × String)

abbrev pub well_known : String
well_known = "duckduckgogg42xjoc72x3sjasowoarfbgcmvfimaftt6twagswzczad.onion:80"

abbrev pub probe_endpoint : System → String → String → List (String × String) → Probed
probe_endpoint sys tor_addr onion done =
    let tried = done ++ (tor_addr, onion) ∷ [] in
    elim (sys.connect tor_addr onion) as (λ _. Probed) [
      | connected ↦ (ok tt, tried)
      | failed e ↦ (err e, tried)
      | timed_out ↦ (err "Configured-onion probe timed out", tried)
    ]

unfoldable pub test_tor_connectivity : System → String → Option String → Option ℕ → Probed
test_tor_connectivity sys config_path tor_host_override tor_port_override =
    let loaded = if sys.exists config_path then load_file sys config_path else ok default_config in
    let config : Config = elim loaded [ err e ↦ default_config | ok c ↦ c ] in
    let tor_host = or_else tor_host_override config.tor_proxy_host in
    let tor_port = or_else tor_port_override config.tor_proxy_port in
    let address = String.◌++◌ tor_host (String.◌++◌ ":" (decimal tor_port)) in
    elim (sys.parse_addr address) as (λ _. Probed) [
      | err e ↦ (err (String.◌++◌ "Invalid Tor SOCKS5 address: " address), [])
      | ok tor_addr ↦
          let first = (tor_addr, well_known) ∷ [] in
          let second = probe_endpoint sys tor_addr config.onion_endpoint first in
          elim (sys.connect tor_addr well_known) as (λ _. Probed) [
            | connected ↦ if is_empty_text config.onion_endpoint then (ok tt, first) else second
            | failed e ↦ (err e, first)
            | timed_out ↦ (err "Tor reachability probe timed out", first)
          ]
    ]

-- What happens while the client serves: `run` of the proxy ends, or Ctrl-C comes, with what waiting
-- for it gives.
pub data Happening : Type 0 where
  proxy_ends : Result String (Unit {0}) → Happening
  interrupted : Result String (Unit {0}) → Happening

-- How `start_proxy` returns once it serves, if it does. The end of the proxy is only logged.
unfoldable pub served : List Happening → Option (Result String (Unit {0}))
served [] = none
served (proxy_ends r ∷ hs) = served hs
served (interrupted (ok u) ∷ hs) = some (ok tt)
served (interrupted (err e) ∷ hs) = some (err "Failed to install signal handler")

-- The lines that are printed.
unfoldable pub show_default_config : List String
show_default_config =
    "# ToRPC Proxy Configuration" ∷ "" ∷ "# Port to listen on for wallet connections"
    ∷ "port = 8545" ∷ "" ∷ "# Tor SOCKS5 proxy address" ∷ "tor_proxy_host = \"127.0.0.1\""
    ∷ "tor_proxy_port = 9050" ∷ "" ∷ "# Target .onion RPC endpoint"
    ∷ "onion_endpoint = \"your-onion-address.onion:8545\"" ∷ ""
    ∷ "# Logging level (trace, debug, info, warn, error)" ∷ "log_level = \"info\"" ∷ []

pub data Commands : Type 0 where
  start : Overrides → Commands
  config : Commands
  test : Option String → Option ℕ → Commands

pub data Done : Type 0 where
  started : Started → Done
  printed : List String → Done
  tested : Probed → Done

-- The command, as clap reads it, with the file of `--config`.
unfoldable pub main : System → Option String → Option Commands → Done
unfolding resolve_config_path start_proxy test_tor_connectivity
main sys file (some (start o)) = started (start_proxy sys (resolve_config_path sys file) o)
main sys file (some config) = printed show_default_config
main sys file (some (test tor_host tor_port)) =
    tested (test_tor_connectivity sys (resolve_config_path sys file) tor_host tor_port)
main sys file none = started (
    start_proxy sys (resolve_config_path sys file)
      (record { port = none; onion = none; tor_host = none; tor_port = none }))
