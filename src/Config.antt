-- ===== src/Config.antt =====
-- internal/config/config.go.
pub mod Types
pub mod Csv
pub mod RoundTrip
pub mod Load
mod Examples
