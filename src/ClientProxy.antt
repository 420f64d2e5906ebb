-- ===== src/ClientProxy.antt =====
-- The proxy on the wallet's machine, torpc-proxy/torpc-proxy-core.
pub mod Forward
pub mod Controller
pub mod Discovery
pub mod Lifecycle
pub mod Settings
pub mod Cli
pub mod Gui
