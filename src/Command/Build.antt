-- ===== src/Command/Build.antt =====
-- `serveCmd` and `buildCache` of cmd/velo/main.go. What the file system, PostgreSQL and Redis do while the
-- gateway starts are arguments.
use velocity_gateway.Common.{
  ℕ, zero, suc, Bool, ◌||◌, Text, codes, text_eq, List, [], ◌∷◌, Option, none, some, if◌then◌else◌,
}
use velocity_gateway.Common.Int64.{Int64, is_nonpos}
use velocity_gateway.Config.Types as Config
use velocity_gateway.Cache.Vector.{Floats}
use velocity_gateway.Cache.Store.{MemoryStore, new_memory_store}
use velocity_gateway.Cache.Embedder.{HashingEmbedder, new_hashing_embedder}
use velocity_gateway.Cache.OpenAi.{OpenAiEmbedder, new_openai_embedder}
use velocity_gateway.Cache.Pgvector.{Database, PgvectorStore, Opened, opened, new_pgvector_store}
use velocity_gateway.RateLimit.Arith.{Arith}
use velocity_gateway.RateLimit.Bucket as RateLimit
use velocity_gateway.Scheduler.State as Scheduler
use velocity_gateway.Router.State.{Router, new_router}
use velocity_gateway.Gateway.Stream.{is_blank}

pub data Embedder : Type 0 where
  openai : OpenAiEmbedder → Embedder
  hashing : HashingEmbedder → Embedder

-- `Dim`
abbrev pub dim_of : Embedder → Int64
dim_of (openai e) = e.dim
dim_of (hashing dim) = dim

-- `none` is the error that the key is missing.
unfoldable pub build_embedder : {F : Type 0} → Config.Cache F → Option Embedder
unfolding new_openai_embedder new_hashing_embedder
build_embedder cc =
    if text_eq cc.embedder (codes "openai")
    then (if is_blank cc.openai_key
        then none
        else some (openai (new_openai_embedder cc.openai_key cc.openai_model cc.embedder_dim)))
    else some (hashing (new_hashing_embedder cc.embedder_dim))

module _ (m : Floats) (S : Type 0) where
  pub data Store : Type 0 where
    pgvector : PgvectorStore S → Store
    memory : MemoryStore m → Store

  -- `cache.New`
  pub record Built : Type 0 where
    pub embedder : Embedder
    pub store : Store
    pub threshold : m.F64
    pub ttl : Int64

  -- What `buildCache` returns: nil without an error, an error, or a cache.
  pub data CacheResult : Type 0 where
    disabled no_key : CacheResult
    no_store : Opened S → CacheResult
    built : Built → CacheResult

module _ (m : Floats) {Conn S : Type 0} (dbs : ℕ → Database m.F32 m.F64 Conn S) where
  -- The loop that dials, at round `i` with so many rounds after it; the database that a round meets is an
  -- argument. It also returns how often it has slept.
  unfoldable pub dial : Text → Int64 → ℕ → ℕ → Opened S × ℕ
  dial url dim zero i = elim (new_pgvector_store m (dbs i) url dim) [
    | opened s ↦ (opened s, i)
    | failed ↦ (failed, suc i)
  ]
  dial url dim (suc left) i = elim (new_pgvector_store m (dbs i) url dim) [
    | opened s ↦ (opened s, i)
    | failed ↦ dial url dim left (suc i)
  ]

  abbrev pub with_store : Config.Cache m.F64 → Embedder → Store m S → CacheResult m S
  with_store cfg emb s =
      built
        (record { embedder = emb; store = s; threshold = cfg.similarity_threshold; ttl = cfg.ttl })

  abbrev pub of_dial : Config.Cache m.F64 → Embedder → Opened S → CacheResult m S
  of_dial cfg emb (opened s) = with_store cfg emb (pgvector s)
  of_dial cfg emb failed = no_store failed

  unfoldable pub build_store : Config.Cache m.F64 → Option Embedder → CacheResult m S
  unfolding dial new_memory_store
  build_store cfg none = no_key
  build_store cfg (some emb) =
      if text_eq cfg.store (codes "pgvector")
      then of_dial cfg emb (dial cfg.postgres_url (dim_of emb) 9 0).0
      else with_store cfg emb (memory (new_memory_store m cfg.max_entries))

  unfoldable pub build_cache : Config.Cache m.F64 → CacheResult m S
  unfolding build_embedder build_store
  build_cache cfg = if cfg.enabled then build_store cfg (build_embedder cfg) else disabled

-- The limiters of `serveCmd`.
module _ (a : Arith) where
  pub data Limiter : Type 0 where
    memory_limiter : RateLimit.MemoryLimiter a → Limiter
    redis_limiter : RateLimit.RedisLimiter a → Limiter

  abbrev pub limits_of : Config.RateLimit → RateLimit.Config
  limits_of cfg = record { rps = cfg.default_rps; burst = cfg.default_burst; window_size = 0 }

  abbrev or_memory : RateLimit.Config → Option (RateLimit.RedisLimiter a) → Limiter
  or_memory limits none = memory_limiter (RateLimit.new_memory_limiter a limits)
  or_memory limits (some l) = redis_limiter l

  -- By what Redis answers to the ping, and the hashes that it has.
  unfoldable pub build_limiter :
      Bool → List (Text × RateLimit.Hash a) → Config.RateLimit → Option Limiter
  build_limiter pong hashes cfg =
      if cfg.enabled
      then some (
          if text_eq cfg.store (codes "redis")
          then or_memory (limits_of cfg) (RateLimit.new_redis_limiter a pong hashes (limits_of cfg))
          else memory_limiter (RateLimit.new_memory_limiter a (limits_of cfg)))
      else none

-- The scheduler of `serveCmd`, which starts at a time.
unfoldable pub build_scheduler :
    {F R : Type 0} → Config.Config F → ℕ → Option (Scheduler.Scheduler R)
build_scheduler cfg now =
    if cfg.scheduler.enabled
    then some (
        Scheduler.new_scheduler
          (record {
            max_batch_size = cfg.scheduler.max_batch_size;
            max_wait = cfg.scheduler.max_wait;
            queue_capacity = cfg.scheduler.queue_capacity;
            workers = cfg.scheduler.workers;
            request_timeout = cfg.router.request_timeout;
          })
          now)
    else none

-- `gateway.Deps`, as `serveCmd` fills it; a cache that failed to be built is nil.
pub record Parts (a : Arith) (m : Floats) (S R : Type 0) : Type 0 where
  pub cache : Option (Built m S)
  pub limiter : Option (Limiter a)
  pub scheduler : Option (Scheduler.Scheduler R)
  pub router : Router

abbrev pub cache_of : {m : Floats} {S : Type 0} → CacheResult m S → Option (Built m S)
cache_of (built c) = some c
cache_of _ = none

-- How `serveCmd` goes: it ends at once with an error, or in the panic of `time.NewTicker` in the goroutine
-- of `healthLoop`, which no one recovers, or runs the gateway.
pub data Started (a : Arith) (m : Floats) (S R : Type 0) : Type 0 where
  no_config no_router ticker_panics : Started a m S R
  running : Config.Config m.F64 → Parts a m S R → Started a m S R

module _ (a : Arith) (m : Floats) {Conn S R : Type 0} (dbs : ℕ → Database m.F32 m.F64 Conn S)
    (pong : Bool) (hashes : List (Text × RateLimit.Hash a)) (now : ℕ) where
  unfoldable pub with_router : Config.Config m.F64 → Option Router → Started a m S R
  unfolding build_cache build_limiter build_scheduler
  with_router cfg none = no_router
  with_router cfg (some r) =
      if is_nonpos cfg.router.health_interval
      then ticker_panics
      else running cfg (record {
        cache = cache_of (build_cache m dbs cfg.cache);
        limiter = build_limiter a pong hashes cfg.rate_limit;
        scheduler = build_scheduler cfg now;
        router = r;
      })

  -- `serveCmd`, by what `config.Load` returns.
  unfoldable pub serve_cmd : Option (Config.Config m.F64) → Started a m S R
  unfolding with_router new_router
  serve_cmd none = no_config
  serve_cmd (some cfg) = with_router cfg (new_router cfg.router)

-- What `main` does with its arguments.
pub data Action : Type 0 where
  serves : List Text → Action
  prints_version helps : Action
  rejects : Action

abbrev is_help : Text → Bool
is_help arg = text_eq arg (codes "-h") || text_eq arg (codes "--help") || text_eq arg (codes "help")

unfoldable velo_main : List Text → Action
velo_main [] = rejects
velo_main (name ∷ []) = rejects
velo_main (name ∷ arg ∷ args) =
    if text_eq arg (codes "serve")
    then serves args
    else if text_eq arg (codes "version")
    then prints_version
    else if is_help arg
    then helps
    else rejects
