-- ===== src/ClientProxy/Settings.antt =====
-- The configuration file of the command line client, torpc-proxy/torpc-proxy-core/src/config.rs, and
-- the file of the desktop client, torpc-proxy/torpc-proxy-gui/src/main.rs, which is the same one.
--
-- The package `toml` is a parameter: it writes a table, a list of keys with their values, as a text,
-- and reads a table from a text. serde's derived writers and readers are written out: a key that
-- is missing has its default where there is one, a value of another type is refused, and keys of
-- other names are passed over. The texts of serde's refusals are not modelled.
-- `parse_addr` is `SocketAddr`'s reading of a text.
pub mod Files
use Prim.Native.String
use torpc.Common.{
  map_err, ◌>>=◌, ◌>>◌, ℕ, ◌^◌, String, Bool, List, [], ◌∷◌, Option, none, some, Result, ok, err,
  lookup, ltb, decimal, unwrap_or, if◌then◌else◌,
}
use torpc.ClientProxy.Forward.{ProxyConfig}

pub data Setting : Type 0 where
  text : String → Setting
  number : ℕ → Setting
  other : Setting  -- of any other type, or a number below 0

abbrev pub Table : Type 0
Table = List (String × Setting)

-- `toml::to_string_pretty` and `toml::from_str`, with the error's text.
pub record Toml : Type 0 where
  pub to_string_pretty : Table → Result String String
  pub from_str : String → Result String Table

pub record Config : Type 0 where
  pub port : ℕ  -- u16
  pub tor_proxy_host : String
  pub tor_proxy_port : ℕ  -- u16
  pub onion_endpoint : String
  pub log_level : String

abbrev pub default_port : ℕ
default_port = 8545

abbrev pub default_tor_host : String
default_tor_host = "127.0.0.1"

abbrev pub default_tor_port : ℕ
default_tor_port = 9050

abbrev pub default_log_level : String
default_log_level = "info"

unfoldable pub default_config : Config
default_config = record {
  port = default_port;
  tor_proxy_host = default_tor_host;
  tor_proxy_port = default_tor_port;
  onion_endpoint = "";
  log_level = default_log_level;
}

-- A field of type `String`, and one of type `u16`, with its default.
abbrev pub as_text : Option Setting → Option String → Result String String
as_text (some (text s)) default = ok s
as_text (some (number n)) default = err "invalid type"
as_text (some other) default = err "invalid type"
as_text none (some d) = ok d
as_text none none = err "missing field"

abbrev pub as_u16 : Option Setting → ℕ → Result String ℕ
as_u16 (some (text s)) default = err "invalid type"
as_u16 (some (number n)) default = if ltb n (2 ^ 16) then ok n else err "invalid value"
as_u16 (some other) default = err "invalid type"
as_u16 none default = ok default

-- What serde makes of a table.
unfoldable pub parse_config : Table → Result String Config
parse_config file = do
  port ← as_u16 (lookup "port" file) default_port
  tor_proxy_host ← as_text (lookup "tor_proxy_host" file) (some default_tor_host)
  tor_proxy_port ← as_u16 (lookup "tor_proxy_port" file) default_tor_port
  onion_endpoint ← as_text (lookup "onion_endpoint" file) (some "")
  log_level ← as_text (lookup "log_level" file) (some default_log_level)
  ok (record {
    port = port;
    tor_proxy_host = tor_proxy_host;
    tor_proxy_port = tor_proxy_port;
    onion_endpoint = onion_endpoint;
    log_level = log_level;
  })

abbrev pub config_table : Config → Table
config_table config =
    ("port", number config.port)
    ∷ ("tor_proxy_host", text config.tor_proxy_host)
    ∷ ("tor_proxy_port", number config.tor_proxy_port)
    ∷ ("onion_endpoint", text config.onion_endpoint)
    ∷ ("log_level", text config.log_level)
    ∷ []

abbrev pub proxy_table : ProxyConfig → Table
proxy_table config =
    ("listen_addr", text config.listen_addr)
    ∷ ("tor_proxy", text config.tor_proxy)
    ∷ ("onion_endpoint", text config.onion_endpoint)
    ∷ []

module _ (toml : Toml) where
  -- Once the text of the file is read.
  unfoldable pub load_from_file : String → Result String Config
  unfolding parse_config
  load_from_file contents =
      map_err (λ e. "Failed to parse configuration file")
        (do file ← toml.from_str contents; parse_config file)

  -- The text that is written to the file.
  unfoldable pub save_to_file : Config → Result String String
  save_to_file config =
      map_err (λ e. "Failed to serialize configuration")
        (toml.to_string_pretty (config_table config))

  -- `save_config` of the desktop client.
  unfoldable pub save_config : ProxyConfig → Result String String
  save_config config = toml.to_string_pretty (proxy_table config)

module _ (parse_addr : String → Result String String) where
  unfoldable pub tor_proxy_addr : Config → String
  tor_proxy_addr config =
      unwrap_or
        (parse_addr
          (String.◌++◌ config.tor_proxy_host (String.◌++◌ ":" (decimal config.tor_proxy_port))))
        "127.0.0.1:9050"

  unfoldable pub read_proxy_config : Table → Result String ProxyConfig
  read_proxy_config file = do
    listen ← as_text (lookup "listen_addr" file) none
    listen_addr ← parse_addr listen
    tor ← as_text (lookup "tor_proxy" file) none
    tor_proxy ← parse_addr tor
    onion_endpoint ← as_text (lookup "onion_endpoint" file) none
    ok (record {
      listen_addr = listen_addr;
      tor_proxy = tor_proxy;
      onion_endpoint = onion_endpoint;
    })

  -- `load_config` of the desktop client, once the text of the file is read.
  unfoldable pub load_config : Toml → String → Result String ProxyConfig
  unfolding read_proxy_config
  load_config toml raw = do file ← toml.from_str raw; read_proxy_config file
