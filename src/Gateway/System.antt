-- ===== src/Gateway/System.antt =====
-- `chatHandler` of internal/gateway/handler.go over a limiter and the cache of internal/cache/cache.go, as
-- cmd/velo/main.go puts them together.
use velocity_gateway.Common.{
  ℕ, ◌+◌, Bool, true, false, Text, List, [], ◌∷◌, Option, none, some, of_some, ◌≡◌,
}
use velocity_gateway.Cache.Semantic.{StoreOps, Cache, lookup_prompt, store_prompt}
use velocity_gateway.Cache.Accounted.{Event, looked_up, stored}
use velocity_gateway.RateLimit.Arith.{Arith}
use velocity_gateway.RateLimit.Bucket.{Answer, MemoryLimiter, allow}
use velocity_gateway.Gateway.Handler.{Job, Waited, CacheOps, Deps, Codec, Reply}
use velocity_gateway.Gateway.Pipeline.{Client, chat}

-- The state of the limiter, the cache, the clock, the calls of the cache so far, the latest first, and the
-- state of everything else. No code reads the calls: they are there to speak of.
pub record World (L F32 F64 S R : Type 0) : Type 0 where
  pub limiter : L
  pub cache : Option (Cache F32 F64 S)
  pub now : ℕ
  pub calls : List Event
  pub rest : R

-- What `serveCmd` puts into `Deps` besides the router: a limiter, in memory or in Redis, or none; a cache or
-- none; and everything else that the handler calls. The wait for a job takes its time.
pub record Others (L R : Type 0) : Type 0 where
  pub limiter : Option (Text → ℕ → L → L × Answer)
  pub caches : Bool
  pub scheduler : Option (Job → R → R × Bool)
  pub dispatch_direct : Job → R → R
  pub await : Job → R → R × Waited
  pub elapsed : Job → R → ℕ
  pub close_body : R → R
  pub count_rejection : Text → R → R
  pub count_request : Text → R → R

-- A request: who sends it and what, and how long after the one before was answered.
pub record Request : Type 0 where
  pub client : Client
  pub body : Option Text
  pub pause : ℕ

-- The limiter in memory.
abbrev pub in_memory :
    (a : Arith) {R : Type 0} → Others (MemoryLimiter a) R → Others (MemoryLimiter a) R
in_memory a others = record others { limiter = some (allow a) }

module _ {L F32 F64 S R : Type 0} (ops : StoreOps F32 F64 S) (others : Others L R) where
  abbrev pub Velo : Type 0
  Velo = World L F32 F64 S R

  abbrev on_rest : (R → R) → Velo → Velo
  on_rest f w = record w { rest = f w.rest }

  abbrev pub ask_limiter : Option (Text → ℕ → L → L × Answer) → Option (Text → Velo → Velo × Answer)
  ask_limiter none = none
  ask_limiter (some allow) =
      some
        (λ key w. let (l, answer) = allow key w.now w.limiter in (record w { limiter = l }, answer))

  abbrev pub cache_ops : CacheOps Velo
  cache_ops = record {
    lookup = λ prompt w.
        let (c, found) = lookup_prompt ops prompt w.now w.cache in
        (record w { cache = c; calls = looked_up prompt w.now ∷ w.calls }, found);
    store = λ prompt e w. record w {
      cache = (store_prompt ops prompt e w.now w.cache).0;
      calls = stored prompt e w.now ∷ w.calls;
    };
  }

  abbrev pub cache_if : Bool → Option (CacheOps Velo)
  cache_if true = some cache_ops
  cache_if false = none

  -- The cache, if there is one, is this one.
  pub of_cache :
      (Q : CacheOps Velo → Type 0) (b : Bool) (d : CacheOps Velo)
      → cache_if b ≡ some d
      → Q cache_ops
      → Q d
  of_cache Q true d h q = of_some Q h q
  of_cache Q false d h q = cc

  abbrev pub submit_to : Option (Job → R → R × Bool) → Option (Job → Velo → Velo × Bool)
  submit_to none = none
  submit_to (some submit) =
      some (λ job w. let (r, accepted) = submit job w.rest in (record w { rest = r }, accepted))

  abbrev pub velo_deps : Deps Velo
  velo_deps = record {
    limiter = ask_limiter others.limiter;
    cache = cache_if others.caches;
    scheduler = submit_to others.scheduler;
    dispatch_direct = λ job w. on_rest (others.dispatch_direct job) w;
    await = λ job w.
        let (r, waited) = others.await job w.rest in
        (record w { rest = r; now = w.now + others.elapsed job w.rest }, waited);
    close_body = λ w. on_rest others.close_body w;
    count_rejection = λ key w. on_rest (others.count_rejection key) w;
    count_request = λ label w. on_rest (others.count_request label) w;
  }

  unfoldable pub serve : Codec → Request → Velo → Velo × Reply
  unfolding chat
  serve codec r w = chat codec velo_deps r.client r.body (record w { now = w.now + r.pause })

  -- Requests one after another.
  unfoldable pub serve_all : Codec → List Request → Velo → Velo
  unfolding serve
  serve_all codec [] w = w
  serve_all codec (r ∷ rs) w = serve_all codec rs (serve codec r w).0
