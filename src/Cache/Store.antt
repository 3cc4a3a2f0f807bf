-- ===== src/Cache/Store.antt =====
-- The entries of internal/cache/cache.go and the store of memory_store.go.
use velocity_gateway.Common.{
  ℕ, Bool, Text, List, [], ◌∷◌, ◌++◌, Option, none, some, length, take, if◌then◌else◌, ltb,
}
use velocity_gateway.Common.Int64.{Int64, is_nonpos}
use velocity_gateway.Cache.Vector.{Floats, cosine_dot}

-- `CreatedAt` is in nanoseconds; 0 is the zero time.
pub record Entry : Type 0 where
  pub model : Text
  pub content : Text
  pub raw : Text
  pub created_at : ℕ

module _ (m : Floats) where
  open m use {F32, F64, lt}

  pub record MemEntry : Type 0 where
    pub vec : List F32
    pub entry : Entry

  pub record MemoryStore : Type 0 where
    pub entries : List MemEntry
    pub max_size : Int64

  unfoldable pub new_memory_store : Int64 → MemoryStore
  new_memory_store max_size = record {
    entries = [];
    max_size = if is_nonpos max_size then 10_000 else max_size;
  }

  -- `CreatedAt.Before(freshUntil)` is what the scan skips.
  abbrev pub is_stale : ℕ → MemEntry → Bool
  is_stale fresh_until e = ltb e.entry.created_at fresh_until

  -- The loop of `Nearest`: `bestSim` and `best`, from the first entry on.
  unfoldable pub scan : List F32 → ℕ → F64 → Option Entry → List MemEntry → F64 × Option Entry
  scan query fresh_until best_sim best [] = (best_sim, best)
  scan query fresh_until best_sim best (e ∷ es) =
      let sim = cosine_dot m query e.vec in
      let skipped = scan query fresh_until best_sim best es in
      let better = scan query fresh_until sim (some e.entry) es in
      if is_stale fresh_until e then skipped else if lt best_sim sim then better else skipped

  -- `if best == nil || bestSim < threshold { return nil }`
  unfoldable pub above : F64 → F64 × Option Entry → Option Entry × F64
  above threshold (best_sim, none) = (none, best_sim)
  above threshold (best_sim, some e) = (if lt best_sim threshold then none else some e, best_sim)

  unfoldable pub nearest : List F32 → F64 → ℕ → MemoryStore → Option Entry × F64
  unfolding scan above
  nearest query threshold fresh_until s =
      above threshold (scan query fresh_until m.minus_one none s.entries)

  -- `sort.SliceStable` by `CreatedAt.After`: newest first, equal times in the order they had.
  unfoldable pub insert_newest : MemEntry → List MemEntry → List MemEntry
  insert_newest x [] = x ∷ []
  insert_newest x (y ∷ ys) =
      let rest = insert_newest x ys in
      if ltb x.entry.created_at y.entry.created_at then y ∷ rest else x ∷ y ∷ ys

  unfoldable pub sort_newest : List MemEntry → List MemEntry
  unfolding insert_newest
  sort_newest [] = []
  sort_newest (x ∷ xs) = insert_newest x (sort_newest xs)

  unfoldable pub put : List F32 → Entry → MemoryStore → MemoryStore
  unfolding sort_newest
  put vec entry s =
      let all = s.entries ++ (record { vec = vec; entry = entry } ∷ []) in
      if ltb s.max_size (length all)
      then record s { entries = take s.max_size (sort_newest all) }
      else record s { entries = all }

  abbrev pub size : MemoryStore → ℕ
  size s = length s.entries
