-- ===== src/Lib.antt =====
-- TorPC: a JSON-RPC gateway to an Ethereum node that is reached over Tor.
--
-- The daemon (src/) accepts JSON-RPC requests, checks them against a whitelist and a budget for
-- methods that write, and forwards them to the node (Geth) behind a circuit breaker. A second
-- endpoint submits transactions as bundles to an MEV relay, with retries and a breaker of its own.
-- Before it serves, the daemon checks the files of its hidden service. On the wallet's machine, a
-- client proxy (torpc-proxy/) takes the wallet's requests, strips what identifies it, and sends them
-- through Tor to the daemon; a command line and a desktop client start it.
--
-- PARTS AND FILES
--   Common.antt, Common/    what the models share: tests, lists, association maps, results, texts
--   External.antt           serde_json and http: JSON values and classes of status codes
--   Breaker.antt            CircuitBreaker of src/mev/retry.rs and CircuitState of src/mev/types.rs
--     Breaker/Tracker       ConsecutiveFailureTracker of src/mev/retry.rs
--   Limiter.antt            RateLimiter of src/rate_limit.rs
--   Rpc.antt                src/rpc_types.rs
--   Errors.antt             src/error.rs
--   Whitelist.antt          src/whitelist.rs
--   Security.antt           the counters of src/security.rs
--   Proxy.antt              src/proxy.rs: ProxyState, proxy_to_geth, handle_rpc, handle_flashbots
--   Mev/Types.antt          Bundle, SendBundleRequest and MevConfig of src/mev/types.rs
--   Mev/Retry.antt          RetryPolicy of src/mev/retry.rs
--   Mev/Client.antt         MevRelayClient of src/mev/client.rs
--   Mev/Handler.antt        src/mev/mev_handler.rs
--   Proxy/Timeout.antt      a request of src/proxy.rs under the timeout of src/security.rs
--   GethClient.antt         src/geth_client.rs: the test of the connection to the node
--   App.antt                src/app.rs: the configuration of the daemon and the choice of its start page
--   App/Service.antt        build_app of src/app.rs: the shared state, and the routes and layers of the
--                           public listener; App/Service/Deadline has them under the timeout
--   App/Start.antt          src/main.rs up to where it serves, and the operator's listener
--   Security/Middleware.antt
--                           headers, timeout, health and metrics of src/security.rs
--   Security/Settings.antt  SecurityConfig of src/security.rs
--   Tor.antt                src/tor.rs: the check of the hidden service's files
--   Breaker/Outage.antt     what a breaker lets through while its calls fail, for both of its clients
--   Mev/Client/Clock.antt   send_bundle of src/mev/client.rs under the timeout of src/security.rs
--   Mev/Handler/Timeout.antt
--                           src/mev/mev_handler.rs under the same timeout
--   App/Start/Shutdown.antt the end of src/main.rs
--   Mev/Auth.antt           src/mev/auth.rs: the signature of a bundle
--   ClientProxy/Discovery.antt
--                           the discovery server of torpc-proxy/torpc-proxy-core/src/proxy.rs, and in
--                           Discovery/Servers what starting the proxy again makes of it
--   ClientProxy/Controller.antt
--                           start and stop of torpc-proxy/torpc-proxy-core/src/lib.rs, at the level
--                           of their locks
--   ClientProxy/Lifecycle.antt
--                           the whole of the same controller for one caller, with its task
--   ClientProxy/Settings.antt
--                           torpc-proxy/torpc-proxy-core/src/config.rs, and the file of the desktop
--                           client
--   ClientProxy/Cli.antt    torpc-proxy/torpc-proxy-cli/src/main.rs
--   ClientProxy/Gui.antt    the commands of torpc-proxy/torpc-proxy-gui/src/main.rs, and in Gui/Sessions
--                           their sequences
--   ClientProxy/Forward.antt
--                           torpc-proxy/torpc-proxy-core/src/proxy.rs: what the wallet's proxy sends
--                           through Tor, and what it answers
--   Journey.antt            both programs together: a wallet's request on its way to the node
--   Tests.antt, Tests/       runs at concrete inputs, several from the source's own tests
--
-- HOW THE CODE IS MODELLED
-- Functions keep the source's names. An operation that changes a shared object takes it and
-- returns it with the result. An operation that holds a lock from its start to its end is one
-- step, so a list of such steps is any interleaving of tasks. A handler that awaits between its
-- locks takes, in its environment, what other tasks do to the shared state there. Readings of
-- the clock are arguments, in nanoseconds from the start of the runtime; so are the answers of
-- the node and of the relay, and the draws of the random generator. A timer fires at a whole
-- millisecond. Errors are values of `Result`. The model adds logs that the program does not
-- keep, of what was sent and slept, which the theorems are about.
--
-- NUMBERS, LOOPS AND FUEL
-- Counters wrap around at their width (`u32`, `u64`). A subtraction of instants stops at zero, as
-- `duration_since` does. The loop over the relay's attempts recurses on the number of attempts left.
-- The digits of a number are computed on fuel 20 in decimal and 16 in hexadecimal, enough for every
-- u64. The f64 delays of the retry policy are fractions; rounding is not modelled.
--
-- NOT MODELLED
-- The accept loops, axum's draining of connections at the shutdown, the handlers of signals, the
-- time that reading a request's body or a static file takes, the parsing of the command line,
-- the window and the menu of the desktop client, the front end (static/) and the tests. These
-- are input and output, or calls of other packages. The limit on concurrent requests is tower's:
-- when it lets a request in is an argument. The packages for signatures and hashes, the
-- extractor of JSON, the reader of TOML and the reading of socket addresses are parameters. Log
-- lines are left out everywhere.
pub mod App
pub mod Breaker
pub mod ClientProxy
pub mod Common
pub mod Errors
pub mod External
pub mod GethClient
pub mod Journey
pub mod Limiter
pub mod Mev
pub mod Proxy
pub mod Rpc
pub mod Security
pub mod Tests
pub mod Tor
pub mod Whitelist
