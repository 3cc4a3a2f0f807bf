-- ===== src/Command.antt =====
-- cmd/velo: how the gateway is put together.
pub mod Build
pub mod Dial
pub mod Start
mod Examples
