-- ===== src/Gateway.antt =====
-- internal/gateway: authentication and the handler of chat completions.
pub mod Text
pub mod Auth
pub mod Stream
pub mod Handler
pub mod Pipeline
pub mod Alike
pub mod Stages
pub mod Sse
pub mod Replay
pub mod Relay
pub mod ReadBack
pub mod Replayed
pub mod Invariant
pub mod System
pub mod Served
pub mod Server
pub mod Guarded
pub mod Closing
pub mod Asked
pub mod Admitted
mod SystemExamples
mod Examples
