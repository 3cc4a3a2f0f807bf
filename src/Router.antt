-- ===== src/Router.antt =====
-- internal/router: the backend pool, the choice of a backend, failover and health checks.
pub mod Backend
pub mod State
pub mod Selection
pub mod Dispatch
pub mod Members
pub mod Choice
pub mod Weights
pub mod TwoChoices
pub mod Threshold
pub mod Loop
pub mod Shape
pub mod Failover
pub mod Service
pub mod InFlight
pub mod Accounting
pub mod Traffic
pub mod InStep
pub mod Busy
mod TrafficExamples
mod Examples
