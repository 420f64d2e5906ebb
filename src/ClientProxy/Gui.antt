-- ===== src/ClientProxy/Gui.antt =====
-- The commands of the desktop client, torpc-proxy/torpc-proxy-gui/src/main.rs: those of its window,
-- those of its tray, and its probe of an endpoint.
--
-- Each command holds the mutex of the controller from its start to its end. The window itself,
-- which `tauri` draws, is not modelled.
pub mod Sessions
use Prim.Native.Nat.{suc}
use Prim.Native.String
use text.Mathlib.Text.{starts_with}
use torpc.Common.{
  ℕ, zero, String, Bool, true, false, not, ◌&&◌, ◌||◌, Option, none, some, Result, ok, err, or_else,
  as_bytes, head?, is_empty_text, trim, lines, contains_text, length, decimal, str_eq,
  if◌then◌else◌,
}
use torpc.ClientProxy.Forward.{ProxyConfig}
use torpc.ClientProxy.Controller.{ProxyStatus}
use torpc.ClientProxy.Lifecycle
use torpc.ClientProxy.Lifecycle.{ProxyController}
use torpc.ClientProxy.Settings.{Toml, load_config}

unfoldable pub default_config : ProxyConfig
default_config = record {
  listen_addr = "127.0.0.1:8545";
  tor_proxy = "127.0.0.1:9050";
  onion_endpoint = "";
}

-- What is read at the start: the file's text, none where it does not exist.
unfoldable pub initial_config :
    Toml → (String → Result String String) → Result String (Option String) → ProxyConfig
initial_config toml parse_addr (err e) = default_config
initial_config toml parse_addr (ok none) = default_config
initial_config toml parse_addr (ok (some raw)) = elim (load_config parse_addr toml raw) [
  | err e ↦ default_config
  | ok config ↦ config
]

-- The environment as `main` leaves it: the discovery server is enabled where nothing is said of it.
unfoldable pub opted_in : (String → Option String) → String → Option String
opted_in env name =
    if str_eq name "TORPC_DISCOVERY_ENABLE" then some (or_else (env name) "true") else env name

unfoldable pub get_status : ProxyController → Result String ProxyStatus
get_status k = ok (Lifecycle.get_status k)

unfoldable pub get_config : ProxyController → Result String ProxyConfig
get_config k = ok (Lifecycle.get_config k)

unfoldable pub start_proxy : ProxyController → Result String (Unit {0}) × ProxyController
start_proxy k =
    if is_empty_text (trim (Lifecycle.get_config k).onion_endpoint)
    then (
      err
          "No onion endpoint configured. Open Settings and enter the .onion address before starting the proxy.",
      k,
    )
    else (ok tt, Lifecycle.start k)

unfoldable pub stop_proxy : ProxyController → Result String (Unit {0}) × ProxyController
stop_proxy k = (ok tt, Lifecycle.stop k)

-- With the configuration that `save_config` is given; an error of saving it is only logged.
unfoldable pub update_config :
    ProxyConfig → ProxyController → Result String (Unit {0}) × ProxyController × ProxyConfig
update_config config k = (ok tt, Lifecycle.update_config config k, config)

-- The entries of the tray's menu.
pub data MenuEvent : Type 0 where
  start : MenuEvent
  stop : MenuEvent
  settings : MenuEvent
  quit : MenuEvent

-- The controller afterwards, and whether the program exits.
unfoldable pub on_menu_event : MenuEvent → ProxyController → ProxyController × Bool
on_menu_event start k = (Lifecycle.start k, false)
on_menu_event stop k = (Lifecycle.stop k, false)
on_menu_event settings k = (k, false)
on_menu_event quit k = (Lifecycle.stop k, true)

-- An operation with a timeout: what it gave in time, if it did.
pub data Timed (A : Type 0) : Type 0 where
  done : A → Timed A
  broken : String → Timed A
  elapsed : Timed A

-- What the connection gives: the address of the proxy, the connection, writing, and the bytes read,
-- as `from_utf8_lossy` shows them.
pub record Connection : Type 0 where
  pub parse_addr : String → Result String String
  pub connect : String → String → Timed (Unit {0})
  pub write_all : String → Timed (Unit {0})
  pub read_to_end : Timed String
  pub version : String

abbrev pub skip : ℕ → String → String
skip zero s = s
skip (suc n) String.[] = String.[]
skip (suc n) (String.◌∷◌ c s) = skip n s

-- The texts before and after the first blank line.
unfoldable pub split_response : String → Option (String × String)
split_response String.[] = none
split_response (String.◌∷◌ c s) =
    let later = split_response s in
    if starts_with (String.◌∷◌ c s) "\r\n\r\n"
    then some ("", skip 3 s)
    else elim later [ none ↦ none | some (head, payload) ↦ some (String.◌∷◌ c head, payload) ]

abbrev pub probe_body : String
probe_body = "{\"jsonrpc\":\"2.0\",\"method\":\"web3_clientVersion\",\"params\":[],\"id\":1}"

abbrev pub line : String → String → String
line text rest = String.◌++◌ text (String.◌++◌ "\r\n" rest)

unfoldable pub probe_request : String → String → String
probe_request host version = line "POST / HTTP/1.1" (
    line (String.◌++◌ "Host: " host) (
      line (String.◌++◌ "User-Agent: torpc-proxy-gui/" version) (
        line "Content-Type: application/json" (
          line (String.◌++◌ "Content-Length: " (decimal (length (as_bytes probe_body))))
            (line "Connection: close" (line "" probe_body))))))

unfoldable pub read_probe : String → Result String String
unfolding split_response
read_probe response = elim (split_response response) [
  | none ↦ err "Onion endpoint returned a non-HTTP response."
  | some (head, payload) ↦
      let status = or_else (head? (lines head)) "" in
      if not (contains_text status " 2" || contains_text status " 3")
      then err (String.◌++◌ "Onion endpoint replied: " status)
      else if not (contains_text payload "\"jsonrpc\"" && contains_text payload "\"2.0\"")
      then err
          "Endpoint reachable but didn't return a JSON-RPC envelope. This may not be a TorPC daemon."
      else ok "Connection successful: reached a TorPC daemon and got a valid JSON-RPC reply."
]

abbrev pub connect_error : String → String
connect_error s =
    if contains_text s "Connection refused"
    then "Tor SOCKS proxy refused the connection. Is Tor running on this address?"
    else if contains_text s "ttl expired" || contains_text s "network unreachable"
    then "Onion service unreachable (rendezvous failed). The .onion may be offline."
    else String.◌++◌ "SOCKS5 connect failed: " s

-- Reading, once the request has been sent; only the timeout of writing is an error.
abbrev pub exchange : Connection → String → Result String String
exchange net onion_endpoint =
    let read = elim net.read_to_end as (λ _. Result String String) [
      | done response ↦ read_probe response
      | broken e ↦ err (String.◌++◌ "Probe read failed: " e)
      | elapsed ↦ err "Probe timed out waiting for a response."
    ] in
    elim (net.write_all (probe_request onion_endpoint net.version)) as (λ _. Result String String) [
      | done u ↦ read
      | broken e ↦ read
      | elapsed ↦ err "Failed to send probe request (timeout: deadline has elapsed)"
    ]

unfoldable pub test_connection : Connection → String → String → Result String String
unfolding read_probe probe_request
test_connection net onion_endpoint tor_proxy = elim (net.parse_addr tor_proxy) [
  | err e ↦ err (String.◌++◌ "Invalid Tor proxy address: " e)
  | ok tor_proxy_addr ↦ elim (net.connect tor_proxy_addr onion_endpoint) [
    | done u ↦ exchange net onion_endpoint
    | broken s ↦ err (connect_error s)
    | elapsed ↦ err "Connection timeout: SOCKS5 connect didn't complete within 15s."
  ]
]
