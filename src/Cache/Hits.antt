-- ===== src/Cache/Hits.antt =====
-- `Store` of internal/cache/cache.go, and then `Lookup` with the same prompt.
use velocity_gateway.Common.{
  ℕ, ◌≤◌, ◌<◌, ◌≡◌, refl, ap, ◌∙◌, true, false, Text, List, Option, none, some, All, arith,
}
use velocity_gateway.Cache.Vector.{Floats, cosine_dot}
use velocity_gateway.Cache.Store.{Entry, MemoryStore, put, nearest}
use velocity_gateway.Cache.Semantic.{
  Cache, hit, memory_ops, fresh_until, stamp, answer, search_for, lookup_prompt, measured, keep,
  put_under, store_prompt,
}
use velocity_gateway.Cache.Nearest.{NoNan, nearest-IsNearest}
use velocity_gateway.Cache.Eviction.{time_of}
use velocity_gateway.Cache.RoundTrip.{put_keeps_new, found_when_stored}

module _ (m : Floats) where
  abbrev pub MemoryCache : Type 0
  MemoryCache = Cache m.F32 m.F64 (MemoryStore m)

  answer_found :
      (o : Option Entry × m.F64) (c : MemoryCache) (found : Entry)
      → o.0 ≡ some found
      → (answer (memory_ops m) (some o) c).1 ≡ hit found
  unfolding answer
  answer_found (none, sim) c found h = cc
  answer_found (some e, sim) c found h = ground arith

  pub put_under-embed :
      (o : Option (List m.F32)) (prompt : Text) (e : Entry) (c : MemoryCache)
      → (put_under (memory_ops m) o prompt e c).0.embed ≡ c.embed
  unfolding put_under keep measured
  put_under-embed none prompt e c = refl
  put_under-embed (some vec) prompt e c = refl

  -- The lookup with the vector under which the entry was put.
  hit_of_vector :
      (vec : List m.F32) (prompt : Text) (e : Entry) (later : ℕ) (c : MemoryCache)
      → NoNan m
      → 0 < c.store.max_size
      → All (λ x. time_of x < e.created_at) c.store.entries
      → fresh_until later c.ttl ≤ e.created_at
      → m.lt m.minus_one (cosine_dot m vec vec) ≡ true
      → m.lt (cosine_dot m vec vec) c.threshold ≡ false
      → (found : Entry) × ((search_for
            (memory_ops m)
            (some vec)
            later
            (put_under (memory_ops m) (some vec) prompt e c).0).1
          ≡ hit found)
  unfolding search_for put_under keep measured
  hit_of_vector vec prompt e later c laws room older young near enough =
      let stored = put m vec e c.store in
      let (found, h) =
        found_when_stored vec c.threshold (fresh_until later c.ttl) stored
          (record { vec = vec; entry = e }) laws (put_keeps_new vec e c.store room older) young near
          enough (nearest m vec c.threshold (fresh_until later c.ttl) stored)
          (nearest-IsNearest m vec c.threshold (fresh_until later c.ttl) stored laws) in
      (found, answer_found _ _ found h)

  -- After `Store` has put a completion into a store in memory that has room for an entry, a `Lookup` of
  -- the same prompt is a hit, under these conditions: the embedder gives the prompt a vector, whose
  -- similarity to itself is above -1 and not below the threshold; every entry that was stored is older;
  -- the time to live has not passed since; and no similarity is not a number.
  pub lookup_prompt-store_prompt :
      (prompt : Text) (e : Entry) (now later : ℕ) (vec : List m.F32) (c : MemoryCache)
      → NoNan m
      → c.embed prompt ≡ some vec
      → 0 < c.store.max_size
      → All (λ x. time_of x < (stamp now e).created_at) c.store.entries
      → fresh_until later c.ttl ≤ (stamp now e).created_at
      → m.lt m.minus_one (cosine_dot m vec vec) ≡ true
      → m.lt (cosine_dot m vec vec) c.threshold ≡ false
      → (found : Entry) × ((lookup_prompt
            (memory_ops m)
            prompt
            later
            (store_prompt (memory_ops m) prompt e now (some c)).0).1
          ≡ hit found)
  unfolding lookup_prompt store_prompt
  lookup_prompt-store_prompt prompt e now later vec c laws embedded room older young near enough =
      let put_with =
        λ (o : Option (List m.F32)). (put_under (memory_ops m) o prompt (stamp now e) c).0 in
      let (found, h) =
        hit_of_vector vec prompt (stamp now e) later c laws room older young near enough in
      let same : (put_with (c.embed prompt)).embed prompt ≡ some vec =
        ap (λ f. f prompt) (put_under-embed (c.embed prompt) prompt (stamp now e) c) ∙ embedded in
      (
        found,
        ap (λ o. (search_for (memory_ops m) o later (put_with (c.embed prompt))).1) same
            ∙ ap (λ o. (search_for (memory_ops m) (some vec) later (put_with o)).1) embedded
            ∙ h,
      )
