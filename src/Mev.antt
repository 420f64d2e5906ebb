-- ===== src/Mev.antt =====
-- MEV protection, src/mev: bundles for the relay, retries, the relay client and the handler.
pub mod Types
pub mod Auth
pub mod Retry
pub mod Client
pub mod Handler
