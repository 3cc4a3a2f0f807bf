-- ===== src/Command/Start.antt =====
-- What cmd/velo/main.go starts with.
use velocity_gateway.Common.{◌≡◌, Bool, true, false, length, Option, none, some}
use velocity_gateway.Common.Int64.{Int64}
use velocity_gateway.Config.Types as Config
use velocity_gateway.Cache.Vector.{Floats}
use velocity_gateway.RateLimit.Arith.{Arith}
use velocity_gateway.RateLimit.Bucket.{new_memory_limiter}
use velocity_gateway.Router.State.{Router}
use velocity_gateway.Command.Build.{memory_limiter, limits_of, Parts}

abbrev is_some {ℓ} : {A : Type ℓ} → Option A → Bool
is_some none = false
is_some (some x) = true

-- What the gateway runs with.
pub record Suits (a : Arith) (m : Floats) {S R : Type 0} (pong : Bool) (cfg : Config.Config m.F64)
    (parts : Parts a m S R) : Type 0 where
  all_backends : length parts.router.backends ≡ length cfg.router.backends
  pub limits : is_some parts.limiter ≡ cfg.rate_limit.enabled
  schedules : is_some parts.scheduler ≡ cfg.scheduler.enabled
  caches : is_some parts.cache ≡ true → cfg.cache.enabled ≡ true
  falls_back :
      pong ≡ false
      → cfg.rate_limit.enabled ≡ true
      → parts.limiter ≡ some (memory_limiter (new_memory_limiter a (limits_of a cfg.rate_limit)))
