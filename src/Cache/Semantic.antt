-- ===== src/Cache/Semantic.antt =====
-- `Lookup` and `Store` of internal/cache/cache.go, over any embedder and any store.
use velocity_gateway.Common.{ℕ, ◌+◌, ◌-◌, Bool, Text, List, Option, none, some, if◌then◌else◌, ◌==◌}
use velocity_gateway.Common.Int64.{Int64, modulus, is_neg}
use velocity_gateway.Cache.Vector.{Floats}
use velocity_gateway.Cache.Store.{Entry, MemoryStore, nearest, put, size}

-- The interface `Store`, without `Close`, over the state `S`; `none` is an error.
pub record StoreOps (F32 F64 S : Type 0) : Type 0 where
  pub nearest : List F32 → F64 → ℕ → S → Option (Option Entry × F64)
  pub put : List F32 → Text → Entry → S → Option S
  pub size : S → Option ℕ

-- A cache with the metrics it counts; the embedder is `Embed`, with `none` for an error.
pub record Cache (F32 F64 S : Type 0) : Type 0 where
  pub embed : Text → Option (List F32)
  pub store : S
  pub threshold : F64
  pub ttl : Int64
  pub hits : ℕ
  pub misses : ℕ
  pub store_size : ℕ

-- What `Lookup` returns.
pub data Found : Type 0 where
  miss error : Found
  hit : Entry → Found

-- `now.Add(-ttl)`: nothing is before the zero time.
unfoldable pub fresh_until : ℕ → Int64 → ℕ
fresh_until now ttl = if is_neg ttl then now + (modulus - ttl) else now - ttl

-- `if entry.CreatedAt.IsZero() { entry.CreatedAt = time.Now() }`
unfoldable pub stamp : ℕ → Entry → Entry
stamp now e = record e { created_at = if e.created_at == 0 then now else e.created_at }

module _ {F32 F64 S : Type 0} (ops : StoreOps F32 F64 S) where
  unfoldable pub answer : Option (Option Entry × F64) → Cache F32 F64 S → Cache F32 F64 S × Found
  answer none c = (c, error)
  answer (some (none, sim)) c = (record c { misses = c.misses + 1 }, miss)
  answer (some (some e, sim)) c = (record c { hits = c.hits + 1 }, hit e)

  unfoldable pub search_for : Option (List F32) → ℕ → Cache F32 F64 S → Cache F32 F64 S × Found
  unfolding fresh_until answer
  search_for none now c = (c, error)
  search_for (some vec) now c =
      answer (ops.nearest vec c.threshold (fresh_until now c.ttl) c.store) c

  -- `Lookup`; a cache that is not configured is `none`.
  unfoldable pub lookup_prompt :
      Text → ℕ → Option (Cache F32 F64 S) → Option (Cache F32 F64 S) × Found
  unfolding search_for
  lookup_prompt prompt now none = (none, miss)
  lookup_prompt prompt now (some c) =
      let (c', found) = search_for (c.embed prompt) now c in (some c', found)

  -- `if n, err := c.store.Size(ctx); err == nil`
  unfoldable pub measured : Option ℕ → Cache F32 F64 S → Cache F32 F64 S
  measured none c = c
  measured (some n) c = record c { store_size = n }

  unfoldable pub keep : Option S → Cache F32 F64 S → Cache F32 F64 S × Bool
  unfolding measured
  keep none c = (c, Bool.false)
  keep (some s) c = (measured (ops.size s) (record c { store = s }), Bool.true)

  unfoldable pub put_under :
      Option (List F32) → Text → Entry → Cache F32 F64 S → Cache F32 F64 S × Bool
  unfolding keep
  put_under none prompt e c = (c, Bool.false)
  put_under (some vec) prompt e c = keep (ops.put vec prompt e c.store) c

  -- `Store`; false is an error.
  unfoldable pub store_prompt :
      Text → Entry → ℕ → Option (Cache F32 F64 S) → Option (Cache F32 F64 S) × Bool
  unfolding stamp put_under
  store_prompt prompt e now none = (none, Bool.true)
  store_prompt prompt e now (some c) =
      let (c', ok) = put_under (c.embed prompt) prompt (stamp now e) c in (some c', ok)

-- `MemoryStore` as a store: none of its methods fails.
abbrev pub memory_ops : (m : Floats) → StoreOps m.F32 m.F64 (MemoryStore m)
memory_ops m = record {
  nearest = λ query threshold fresh s. some (nearest m query threshold fresh s);
  put = λ vec prompt e s. some (put m vec e s);
  size = λ s. some (size m s);
}
