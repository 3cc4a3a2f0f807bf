-- ===== src/Mock.antt =====
-- cmd/mock-backend: the upstream that the gateway is tried out with.
pub mod Tokens
pub mod Server
pub mod Words
pub mod Streaming
mod Examples
