-- ===== src/RateLimit/Bucket.antt =====
-- internal/ratelimit: the configuration of limiter.go, the bucket of memory.go and the script of
-- redis.go.
use velocity_gateway.Common.{
  ℕ, ◌+◌, ◌-◌, ltb, Bool, true, false, Text, codes, List, [], ◌∷◌, ◌++◌, Option, none, some,
  if◌then◌else◌, lookup, insert,
}
use velocity_gateway.Common.Int64.{Int64, is_nonpos, mul64}
use velocity_gateway.RateLimit.Arith.{Arith}

pub record Config : Type 0 where
  pub rps : Int64
  pub burst : Int64
  pub window_size : Int64

-- `effective`: the refill rate and the capacity, with their defaults.
unfoldable pub effective : Config → Int64 × Int64
effective c =
    let rps = if is_nonpos c.rps then 10 else c.rps in
    (rps, if is_nonpos c.burst then mul64 rps 2 else c.burst)

-- What `Allow` returns: a decision, or `ErrNoKey`.
pub data Answer : Type 0 where
  decision : Bool → Answer
  err_no_key : Answer

abbrev is_empty_text : Text → Bool
is_empty_text [] = true
is_empty_text _ = false

-- What the call of the script meets: the server runs it, at a time in milliseconds of its own clock, and
-- the answer arrives or is lost; or it fails before the script runs.
pub data Server : Type 0 where
  answers : ℕ → Server
  fails : Server
  loses : ℕ → Server

-- `PEXPIRE key 3600000`
abbrev pub time_to_live : ℕ
time_to_live = 3_600_000

abbrev pub redis_key : Text → Text
redis_key key = codes "velo:rl:" ++ key

module _ (m : Arith) where
  open m use {F, of_int, add, sub, mul, lt, ge, seconds, millis}

  -- `time.Time` as the nanoseconds of the monotonic clock.
  pub record Bucket : Type 0 where
    pub tokens : F
    pub last : ℕ

  -- `if b.tokens > burst { b.tokens = burst }`
  unfoldable pub cap : F → F → F
  cap burst t = if lt burst t then burst else t

  -- `now` is read while the mutex is held, from a clock that does not run backwards, so that it is not
  -- before `last`.
  unfoldable pub refill : Int64 → Int64 → ℕ → Bucket → F
  unfolding cap
  refill rps burst now b =
      cap (of_int burst) (add b.tokens (mul (seconds (now - b.last)) (of_int rps)))

  -- `if b.tokens >= 1 { b.tokens -= 1; return true }`
  unfoldable pub spend : F → F × Bool
  spend t = if ge t (of_int 1) then (sub t (of_int 1), true) else (t, false)

  unfoldable pub take_token : Int64 → Int64 → ℕ → Bucket → Bucket × Bool
  unfolding refill spend
  take_token rps burst now b =
      let (tokens, ok) = spend (refill rps burst now b) in
      (record { tokens = tokens; last = now }, ok)

  pub record MemoryLimiter : Type 0 where
    pub cfg : Config
    pub buckets : List (Text × Bucket)

  unfoldable pub new_memory_limiter : Config → MemoryLimiter
  new_memory_limiter cfg = record { cfg = cfg; buckets = [] }

  -- The bucket of a key, full if the key is new.
  unfoldable pub bucket_or_full : Int64 → ℕ → Option Bucket → Bucket
  bucket_or_full burst now none = record { tokens = of_int burst; last = now }
  bucket_or_full burst now (some b) = b

  unfoldable pub bucket_of : Text → ℕ → MemoryLimiter → Bucket
  unfolding bucket_or_full
  bucket_of key now l = bucket_or_full (effective l.cfg).1 now (lookup key l.buckets)

  -- `MemoryLimiter.Allow` at the time `now`.
  unfoldable pub allow : Text → ℕ → MemoryLimiter → MemoryLimiter × Answer
  unfolding take_token bucket_of
  allow key now l =
      if is_empty_text key
      then (l, err_no_key)
      else (let (rps, burst) = effective l.cfg in
          let (b, ok) = take_token rps burst now (bucket_of key now l) in
          (record l { buckets = insert key b l.buckets }, decision ok))

  -- A hash of Redis: the fields `t` and `ts`, the latter in milliseconds of a replica's clock, and when the
  -- server's clock has passed its time to live.
  pub record Hash : Type 0 where
    pub t : F
    pub ts : ℕ
    pub expires : ℕ

  -- `math.min(burst, x)` of Lua: the first argument unless the second is less.
  unfoldable pub lua_min : F → F → F
  lua_min burst x = if lt x burst then x else burst

  -- The tokens and the time that the script goes on from.
  abbrev found_or_full : Int64 → ℕ → Option Hash → F × ℕ
  found_or_full burst now none = (of_int burst, now)
  found_or_full burst now (some h) = (h.t, h.ts)

  -- `allowScript` on the hash that it finds at its key, at a time of the server's clock.
  -- `math.max(0, now - ts)` is the subtraction of natural numbers.
  unfoldable pub allow_script : Int64 → Int64 → ℕ → ℕ → Option Hash → Hash × Bool
  unfolding lua_min spend
  allow_script rps burst server_ms now stored =
      let (t, ts) = found_or_full burst now stored in
      let tokens = lua_min (of_int burst) (add t (mul (millis (now - ts)) (of_int rps))) in
      let (rest, allowed) = spend tokens in
      (record { t = rest; ts = now; expires = server_ms + time_to_live }, allowed)

  -- The hashes of the Redis server, and one replica's limiter.
  pub record RedisLimiter : Type 0 where
    pub cfg : Config
    pub hashes : List (Text × Hash)
    pub fallback : MemoryLimiter

  -- `NewRedisLimiter`, by the ping's success and the hashes that the server has.
  unfoldable pub new_redis_limiter : Bool → List (Text × Hash) → Config → Option RedisLimiter
  unfolding new_memory_limiter
  new_redis_limiter true hashes cfg =
      some (record { cfg = cfg; hashes = hashes; fallback = new_memory_limiter cfg })
  new_redis_limiter false hashes cfg = none

  -- The server drops a hash whose time to live has passed.
  unfoldable pub live : ℕ → Option Hash → Option Hash
  live server_ms none = none
  live server_ms (some h) = if ltb h.expires server_ms then none else some h

  unfoldable pub run_script : ℕ → Text → ℕ → RedisLimiter → RedisLimiter × Bool
  unfolding allow_script live
  run_script server_ms key now_ms l =
      let (rps, burst) = effective l.cfg in
      let stored = live server_ms (lookup key l.hashes) in
      let (h, allowed) = allow_script rps burst server_ms now_ms stored in
      (record l { hashes = insert key h l.hashes }, allowed)

  unfoldable fall_back : Text → ℕ → RedisLimiter → RedisLimiter × Answer
  unfolding allow
  fall_back key now l =
      let (f, answer) = allow key now l.fallback in (record l { fallback = f }, answer)

  -- `RedisLimiter.Allow`, by the two clocks of the replica.
  unfoldable pub redis_allow : Server → Text → ℕ → ℕ → RedisLimiter → RedisLimiter × Answer
  unfolding run_script fall_back
  redis_allow server [] now_ms now l = (l, err_no_key)
  redis_allow fails (c ∷ cs) now_ms now l = fall_back (c ∷ cs) now l
  redis_allow (loses server_ms) (c ∷ cs) now_ms now l =
      fall_back (c ∷ cs) now (run_script server_ms (redis_key (c ∷ cs)) now_ms l).0
  redis_allow (answers server_ms) (c ∷ cs) now_ms now l =
      let (l', allowed) = run_script server_ms (redis_key (c ∷ cs)) now_ms l in
      (l', decision allowed)
