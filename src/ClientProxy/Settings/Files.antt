-- ===== src/ClientProxy/Settings/Files.antt =====
-- What comes back from the file that the two clients share.
use torpc.Common.{ℕ, ◌^◌, ◌<◌, ◌≡◌, refl, arith, String, some, Result, ok, err, lookup}
use torpc.ClientProxy.Forward.{ProxyConfig}
use torpc.ClientProxy.Settings.{
  Toml, Config, default_config, as_u16, number, config_table, proxy_table, parse_config,
  load_from_file, read_proxy_config, load_config,
}

as_u16-number : (n d : ℕ) → n < 2 ^ 16 → as_u16 (some (number n)) d ≡ ok n
as_u16-number n d h = ground arith

-- A text from which toml reads the table of a saved configuration.
module _ (toml : Toml) (parse_addr : String → Result String String) (file : String) where
  -- The command line reads back the configuration that it saved; the ports are 16 bits wide.
  save-load :
      (config : Config)
      → toml.from_str file ≡ ok (config_table config)
      → config.port < 2 ^ 16
      → config.tor_proxy_port < 2 ^ 16
      → load_from_file toml file ≡ ok config
  unfolding load_from_file parse_config lookup
  save-load config read p q =
      rw
        (
          load_from_file,
          read,
          as_u16-number config.port 8545 p,
          as_u16-number config.tor_proxy_port 9050 q,
        )
        refl

  -- The desktop client reads back the configuration that it saved, where its addresses are read back.
  gui-load :
      (config : ProxyConfig)
      → toml.from_str file ≡ ok (proxy_table config)
      → parse_addr config.listen_addr ≡ ok config.listen_addr
      → parse_addr config.tor_proxy ≡ ok config.tor_proxy
      → load_config parse_addr toml file ≡ ok config
  unfolding load_config read_proxy_config lookup
  gui-load config read p q = rw (load_config, read, p, q) refl

  -- From the desktop client's file the command line reads the onion endpoint and defaults for the rest.
  gui-cli :
      (config : ProxyConfig)
      → toml.from_str file ≡ ok (proxy_table config)
      → load_from_file toml file
        ≡ ok (record default_config { onion_endpoint = config.onion_endpoint })
  unfolding load_from_file parse_config default_config lookup
  gui-cli config read = rw (load_from_file, read) refl

  -- The desktop client refuses the file of the command line.
  cli-gui :
      (config : Config)
      → toml.from_str file ≡ ok (config_table config)
      → (e : String) × (load_config parse_addr toml file ≡ err e)
  unfolding load_config read_proxy_config lookup
  cli-gui config read = ("missing field", rw (load_config, read) refl)
