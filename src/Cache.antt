-- ===== src/Cache.antt =====
-- internal/cache: the semantic cache and its store in memory.
pub mod Vector
pub mod Store
pub mod Semantic
pub mod Nearest
pub mod Eviction
pub mod RoundTrip
pub mod Hits
pub mod Embedder
pub mod Tokens
pub mod Hashing
pub mod Vectors
pub mod SameWords
pub mod OpenAi
pub mod Pgvector
pub mod Contract
pub mod Accounted
pub mod Provenance
pub mod Whole
mod StoreExamples
mod WordExamples
mod Examples
