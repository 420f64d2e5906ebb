-- ===== src/Tests/SessionTests.antt =====
-- A session of the desktop client, and a wallet's request from end to end.
use torpc.ClientProxy.Discovery.{generate_discovery_token, discovery_port}
use torpc.ClientProxy.Discovery.Servers.{Launch, launches, status_for, launches_stale}
use torpc.Common.{
  String, Option, some, none, ℕ, str_eq, if◌then◌else◌, ◌≡◌, ◌⊎◌, refl, true, [], ◌∷◌, ok, trim,
}
use torpc.ClientProxy.Gui.{default_config, MenuEvent}
use torpc.ClientProxy.Gui.Sessions.{act, starts, menu, ever_lacks, ever_around, ever_lacks-new}
use torpc.ClientProxy.Gui
use torpc.ClientProxy.Lifecycle
use torpc.Journey.{Delivery, journey, SendsWallets, journey-SendsWallets}
use torpc.Tests.Sample.{sample}
use torpc.Tests.ClientTests.{config, tunnel, wallet}
use torpc.Tests.ProxyTests.{asks}
use torpc.Tests.ServiceTests.{service, posted}

-- The window refuses to start without an endpoint; the tray does not.
tray_goes_around :
    ever_lacks (Lifecycle.new default_config) (starts ∷ menu MenuEvent.start ∷ []) ≡ true
unfolding ever_lacks act Gui.start_proxy Gui.on_menu_event Lifecycle.new Lifecycle.start
    Lifecycle.get_config default_config trim
tray_goes_around = refl

ever_lacks-new_example :
    ever_lacks (Lifecycle.new default_config) (starts ∷ menu MenuEvent.start ∷ [])
    ≡ ever_around (Lifecycle.new default_config) (starts ∷ menu MenuEvent.start ∷ [])
ever_lacks-new_example = ever_lacks-new default_config (starts ∷ menu MenuEvent.start ∷ [])

abbrev delivery : Delivery sample
delivery = record {
  to_visit = λ u. record (posted 5) {
    request = record (posted 5).request { path = u.uri; body = u.body };
  };
  decode = λ body. ok (asks "eth_blockNumber");
  body_kept = λ u. refl;
  decode_kept = λ u. refl;
}

journey-SendsWallets_example :
    let s' = journey sample tunnel delivery 1024 config wallet service in
    (s'.mev_state.base_state.wire ≡ []) ⊎ SendsWallets sample tunnel delivery 1024 wallet service s'
journey-SendsWallets_example =
    journey-SendsWallets sample tunnel delivery 1024 config wallet service refl

abbrev enabled : String → Option String
enabled name = if str_eq name "TORPC_DISCOVERY_ENABLE" then some "true" else none

abbrev launch : ℕ → Launch
launch b = record {
  config = config;
  bytes = b ∷ [];
  write = ok tt;
  set_permissions = ok tt;
  is_free = true;
  bind = ok tt;
  accept_error = "Too many open files";
}

default_port : discovery_port enabled ≡ some 8081
unfolding discovery_port
default_port = refl

-- The proxy is started twice: the file has the second token, and the server wants the first.
launches_stale_example :
    let d =
      launches enabled "/tmp" (launch 1 ∷ launch 2 ∷ []) (record { server = none; file = none }) in
    (d.server ≡ some (record { config = config; token = "01" }))
    × (d.file ≡ some "02")
    × (status_for enabled "/tmp" sample
          (λ v. "{}")
          "0.1.0"
          d.file
          (record { config = config; token = "01" })
        ≡ 401)
unfolding generate_discovery_token
launches_stale_example =
    launches_stale enabled "/tmp" sample (λ v. "{}") "0.1.0" (launch 1) (launch 2 ∷ []) none 8081
      default_port refl (refl, (refl, tt))
