-- ===== src/Tests.antt =====
-- Evaluations of the models on concrete inputs, and the theorems at inputs that meet their hypotheses.
mod Sample
mod BreakerTests
mod LimiterTests
mod ProxyTests
mod MevTests
mod ClientTests
mod ControllerTests
mod DaemonTests
mod ServiceTests
mod LimitsTests
mod SessionTests
mod RelayTests
