-- ===== src/App/Start/Guards.antt =====
-- What holds of a daemon that serves.
use torpc.Common.{err, false, ◌⊎◌, [], ◌∷◌, ℕ, ◌≡◌, String, true, Option, Result, ok}
use torpc.Tor
use torpc.Tor.{Files}
use torpc.Tor.Anonymity.{Admissible, Secured}
use torpc.App.{AppConfig, from_env}
use torpc.App.Service.{build_app}
use torpc.App.Start.{Sockets, Running}

-- A step that is followed by others has succeeded where they do.
module _ (sockets : Sockets) where
  -- The addresses can be read and bound, and the operator's one is a loopback address.
  pub record Listens (config : AppConfig) (public_addr admin_addr : String) : Type 0 where
    pub public_read : sockets.parse_addr config.bind_addr ≡ ok public_addr
    pub admin_read : sockets.parse_addr config.admin_bind_addr ≡ ok admin_addr
    pub local : sockets.is_loopback admin_addr ≡ true
    pub public_bound : sockets.bind [] public_addr ≡ ok tt
    pub admin_bound : sockets.bind (public_addr ∷ []) admin_addr ≡ ok tt

  -- Two listeners cannot have one address, but where its port is 0 and the system takes another port.
  abbrev pub Exclusive : Type 0
  Exclusive =
      (addr : String)
      → sockets.is_any_port addr ≡ false
      → (e : String) × (sockets.bind (addr ∷ []) addr ≡ err e)

  module _ {Value : Type 0} (fs : Files) (client http : Result String (Unit {0}))
      (key : String → Result String (Unit {0})) (env : String → Option String) (now : ℕ) where
    -- What holds of a daemon that serves, by the files, the environment and the sockets alone.
    pub record Guarded (r : Running Value) : Type 0 where
      pub built : build_app client http key (from_env env) now ≡ ok r.service
      pub anonymous :
          (fs.exists Tor.new.config_path ≡ false)
          ⊎ ((torrc : String) × (fs.read_to_string Tor.new.config_path ≡ ok torrc)
              × (Admissible fs torrc × Secured fs))
      pub listens : Listens (from_env env) r.public_addr r.admin_addr
      pub apart : r.public_addr ≡ r.admin_addr → sockets.is_any_port r.public_addr ≡ true
