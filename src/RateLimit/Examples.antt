-- ===== src/RateLimit/Examples.antt =====
-- Limiters of two tokens at two tokens a second, and the theorems on internal/ratelimit applied to them.
use velocity_gateway.Common.{
  text_eq, ℕ, ◌+◌, ◌*◌, ◌-◌, ◌≤◌, ◌≡◌, refl, true, Text, codes, List, [], ◌∷◌, lookup, All, arith,
}
use velocity_gateway.RateLimit.Arith.{billion, exact}
use velocity_gateway.RateLimit.Bucket.{
  allow, Config, effective, decision, MemoryLimiter, new_memory_limiter, RedisLimiter,
  new_redis_limiter,
}
use velocity_gateway.RateLimit.Admission.{granted, Ordered, granted_bound, allow_after_wait}
use velocity_gateway.RateLimit.Script.{redis_run, memory_run, redis_refines_memory}
use velocity_gateway.RateLimit.Skew.{alternating, skewed_unlimited}

abbrev settings : Config
settings = record { rps = 2; burst = 2; window_size = 0 }

abbrev alice : Text
alice = codes "alice"

abbrev bob : Text
bob = codes "bob"

abbrev limiter : MemoryLimiter exact
limiter = new_memory_limiter exact settings

-- A limiter on which alice has spent her tokens at second 5.
abbrev spent : MemoryLimiter exact
spent = record { cfg = settings; buckets = (alice, record { tokens = 0; last = 5 * billion }) ∷ [] }

abbrev shared : RedisLimiter exact
shared = record { cfg = settings; hashes = []; fallback = limiter }

abbrev calls : List (Text × ℕ)
calls = (alice, 1) ∷ (bob, 2) ∷ (alice, 3) ∷ (alice, billion) ∷ []

calls-Ordered : Ordered 0 calls billion
unfolding Ordered
calls-Ordered = (omega arith, (omega arith, (omega arith, (omega arith, omega arith))))

granted_bound_example :
    granted alice calls spent * billion
    ≤ (effective spent.cfg).1 * billion + (billion - 0) * (effective spent.cfg).0
granted_bound_example = granted_bound alice 0 billion calls spent calls-Ordered

redis_refines_memory_example :
    redis_run (λ now. now) ((alice, 1) ∷ (bob, 2) ∷ (alice, 4_000_000) ∷ []) shared
    ≡ memory_run ((alice, 1) ∷ (bob, 2) ∷ (alice, 4_000_000) ∷ []) limiter
redis_refines_memory_example =
    redis_refines_memory settings ((alice, 1) ∷ (bob, 2) ∷ (alice, 4_000_000) ∷ []) shared
      (unfold effective in omega arith) (unfold new_redis_limiter in refl)

skewed_unlimited_example :
    All
      (λ answer. answer ≡ decision true)
      (redis_run (λ _. 77) (alternating 50 alice 9000 1000) shared)
unfolding effective
skewed_unlimited_example =
    skewed_unlimited shared 77 9000 1000 97 (codes "lice") 50 (unfold lookup in refl) (omega arith)
      (omega arith)

allow_after_wait_example : (allow exact alice (6 * billion) spent).1 ≡ decision true
allow_after_wait_example =
    allow_after_wait 97 (codes "lice") (6 * billion) spent
      (record { tokens = 0; last = 5 * billion }) (unfold lookup text_eq in refl)
      (unfold effective in omega arith) (unfold effective in omega arith)
