-- ===== src/Cache/Examples.antt =====
-- A store of two entries over whole numbers, and the theorems on internal/cache applied to it.
use velocity_gateway.Common.{ℕ, ◌≡◌, refl, List, [], ◌∷◌, ◌++◌, none, some}
use velocity_gateway.Cache.Vector.{cosine_dot}
use velocity_gateway.Cache.Store.{MemEntry, MemoryStore, nearest, put}
use velocity_gateway.Cache.Whole.{whole, whole-NoNan, east, north, entry}
use velocity_gateway.Cache.Nearest.{IsNearest, nearest-IsNearest}
use velocity_gateway.Cache.Eviction.{IsEviction, put-IsEviction}
use velocity_gateway.Cache.Hits.{MemoryCache}

abbrev at : List ℕ → ℕ → MemEntry whole
at vec t = record { vec = vec; entry = entry t }

abbrev two : MemoryStore whole
two = record { entries = at east 5 ∷ at north 9 ∷ []; max_size = 2 }

nearest-IsNearest_example : IsNearest whole east 3 2 two.entries (nearest whole east 2 3 two)
nearest-IsNearest_example = nearest-IsNearest whole east 2 3 two whole-NoNan

-- The scan finds the first entry, and nothing once it is stale.
finds : nearest whole east 2 3 two ≡ (some (entry 5), 2)
unfolding nearest cosine_dot
finds = refl

expired : nearest whole east 2 6 two ≡ (none, 1)
unfolding nearest cosine_dot
expired = refl

put-IsEviction_example :
    (evicted : List (MemEntry whole)) × IsEviction 2
      (two.entries ++ (at east 11 ∷ []))
      (put whole east (entry 11) two).entries
      evicted
put-IsEviction_example = put-IsEviction east (entry 11) two

abbrev cache : MemoryCache whole
cache = record {
  embed = λ prompt. some east;
  store = two;
  threshold = 2;
  ttl = 100;
  hits = 0;
  misses = 0;
  store_size = 2;
}
