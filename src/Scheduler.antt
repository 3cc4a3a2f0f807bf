-- ===== src/Scheduler.antt =====
-- internal/scheduler: the micro-batcher in front of the router.
pub mod State
pub mod Batcher
pub mod Reach
pub mod Fifo
pub mod Invariant
pub mod Clock
pub mod Bounds
pub mod Deadline
pub mod Shutdown
pub mod Drain
mod Examples
