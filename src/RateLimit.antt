-- ===== src/RateLimit.antt =====
-- internal/ratelimit: token buckets, in the process and in Redis.
pub mod Arith
pub mod Bucket
pub mod Isolation
pub mod Exact
pub mod Admission
pub mod Hashes
pub mod Script
pub mod Skew
mod Examples
