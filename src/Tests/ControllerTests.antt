-- ===== src/Tests/ControllerTests.antt =====
-- The controller of the client proxy and the desktop client on concrete runs.
use torpc.Common.{◌≡◌, refl, true, false, List, [], ◌∷◌, some}
use torpc.ClientProxy.Forward.{ProxyConfig}
use torpc.Common.{trim}
use torpc.ClientProxy.Lifecycle
use torpc.ClientProxy.Lifecycle.{starts, updates, proceeds, begins, binds, serving}
use torpc.ClientProxy.Gui
use torpc.ClientProxy.Controller.{
  Controller, start, stop, stopped, starting, running, stopping, asks_status, asks_handle, spawns,
  asks_again, Turn, first_call, second_call, holds_status, holds_handle, advance, take, run, begin,
}
use torpc.ClientProxy.Controller.Locks.{Deadlocked, stop_deadlocks}
use torpc.Tests.ClientTests.{config}

-- A `stop` that has its turns while a `start` waits.
abbrev stopping_one : Controller
stopping_one = record {
  status = stopping;
  handle = false;
  first = asks_again;
  second = asks_status start;
}

stops :
    run (first_call ∷ first_call ∷ first_call ∷ []) (begin stop start running true)
    ≡ some stopping_one
unfolding run take advance holds_status holds_handle
stops = refl

stop_deadlocks_example :
    (ts : List Turn) × (k : Controller) × (run ts (begin stop start running true) ≡ some k)
    × (k.first ≡ asks_again)
    × (k.second ≡ asks_handle start)
    × Deadlocked k
stop_deadlocks_example = stop_deadlocks start running

abbrev starting_one : Controller
starting_one = record {
  status = starting;
  handle = false;
  first = spawns;
  second = asks_handle start;
}

begun :
    run (first_call ∷ first_call ∷ first_call ∷ second_call ∷ []) (begin start start stopped false)
    ≡ some starting_one
unfolding run take advance holds_status holds_handle
begun = refl

abbrev elsewhere : ProxyConfig
elsewhere = record config { onion_endpoint = "other.onion:8545" }

-- A configuration that arrives before the task begins: the task serves the old one.
stale_config :
    Lifecycle.run
      (Lifecycle.new config)
      (starts ∷ updates elsewhere ∷ proceeds begins ∷ proceeds binds ∷ [])
    ≡ record {
      config = elsewhere;
      status = running;
      handle = some (record { config = config; phase = serving });
      detached = [];
    }
unfolding Lifecycle.run Lifecycle.new Lifecycle.step Lifecycle.start Lifecycle.update_config
    Lifecycle.proceed Lifecycle.is_running
stale_config = refl

-- The tray starts a proxy without an endpoint.
tray_starts : (Gui.on_menu_event Gui.start (Lifecycle.new Gui.default_config)).0.status ≡ starting
unfolding Gui.on_menu_event Lifecycle.new Lifecycle.start
tray_starts = refl

window_refuses :
    (Gui.start_proxy (Lifecycle.new Gui.default_config)).1 ≡ Lifecycle.new Gui.default_config
unfolding Gui.start_proxy Gui.default_config Lifecycle.new Lifecycle.get_config trim
window_refuses = refl
