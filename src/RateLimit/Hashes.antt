-- ===== src/RateLimit/Hashes.antt =====
-- A hash of the script of internal/ratelimit/redis.go beside a bucket of memory.go, in exact arithmetic.
use velocity_gateway.Common.{ℕ, ◌+◌, ◌-◌, ◌*◌, ◌/◌, ◌≡◌, ap, ◌∙◌, none, some, arith, ◌≤◌, ◌<◌}
use velocity_gateway.Common.Int64.{Int64}
use velocity_gateway.RateLimit.Arith.{billion, exact}
use velocity_gateway.RateLimit.Exact.{refill_lem}
use native.Mathlib.Nat.{mul-le-mul_right}
use velocity_gateway.RateLimit.Bucket.{
  Bucket, bucket_or_full, take_token, refill, cap, spend, Hash, lua_min, allow_script, time_to_live,
}

-- A hash as a bucket: its time in nanoseconds.
abbrev pub as_bucket : Hash exact → Bucket exact
as_bucket h = record { tokens = h.t; last = h.ts * 1_000_000 }

lua_min-cap : (c x : ℕ) → lua_min exact c x ≡ cap exact c x
unfolding lua_min cap
lua_min-cap c x = ground arith

script-level : Int64 → Int64 → ℕ → Hash exact → ℕ
script-level rps burst now h =
    lua_min exact (burst * billion) (h.t + (now - h.ts) * 1_000_000 * (rps * billion) / billion)

script-level_lem :
    (rps burst : Int64) (now : ℕ) (h : Hash exact)
    → script-level rps burst now h ≡ refill exact rps burst (now * 1_000_000) (as_bucket h)
unfolding script-level refill
script-level_lem rps burst now h =
    lua_min-cap (burst * billion) (h.t + (now - h.ts) * 1_000_000 * (rps * billion) / billion)
    ∙ ap (λ x. cap exact (burst * billion) (h.t + x * (rps * billion) / billion)) (scaled now h.ts)
  where
    scaled : (a b : ℕ) → (a - b) * 1_000_000 ≡ a * 1_000_000 - b * 1_000_000
    scaled a b = omega arith

pub script-take :
    (rps burst : Int64) (server_ms now : ℕ) (h : Hash exact)
    → let (kept, allowed) = allow_script exact rps burst server_ms now (some h) in
      (as_bucket kept, allowed) ≡ take_token exact rps burst (now * 1_000_000) (as_bucket h)
unfolding allow_script take_token script-level
script-take rps burst server_ms now h =
    ap (λ x. (record { tokens = (spend exact x).0; last = now * 1_000_000 }, (spend exact x).1))
      (script-level_lem rps burst now h)

-- The script without a hash is `take_token` on a full bucket.
pub script-full :
    (rps burst : Int64) (server_ms now : ℕ)
    → let (kept, allowed) = allow_script exact rps burst server_ms now none in
      (as_bucket kept, allowed)
      ≡ take_token exact rps burst
          (now * 1_000_000)
          (bucket_or_full exact burst (now * 1_000_000) none)
unfolding allow_script bucket_or_full
script-full rps burst server_ms now =
    script-take rps burst server_ms now (record { t = burst * billion; ts = now; expires = 0 })

cap_full : (c x : ℕ) → c ≤ x → cap exact c x ≡ c
unfolding cap
cap_full c x h = ground arith

-- A bucket that rests for an hour is full, if the rate fills it in an hour.
pub rested :
    (rps burst : Int64) (now ts t : ℕ)
    → burst ≤ 3600 * rps
    → ts + time_to_live < now
    → refill exact rps burst (now * 1_000_000) (record { tokens = t; last = ts * 1_000_000 })
      ≡ burst * billion
rested rps burst now ts t fills idle =
    let d = now * 1_000_000 - ts * 1_000_000 in
    let hour : 3600 * billion ≤ d = omega (arith, idle) in
    let gained : 3600 * billion * rps ≤ d * rps = mul-le-mul_right rps hour in
    refill_lem rps burst (now * 1_000_000) (record { tokens = t; last = ts * 1_000_000 })
    ∙ cap_full (burst * billion) (t + d * rps) (omega (arith, fills, gained))

pub new_full :
    (rps burst : Int64) (now : ℕ)
    → refill exact rps burst now (bucket_or_full exact burst now none) ≡ burst * billion
unfolding bucket_or_full
new_full rps burst now =
    refill_lem rps burst now (record { tokens = burst * billion; last = now })
    ∙ cap_full (burst * billion) (burst * billion + (now - now) * rps) (omega arith)

pub take_token-level :
    (rps burst : Int64) (now : ℕ) (b b' : Bucket exact)
    → refill exact rps burst now b ≡ refill exact rps burst now b'
    → take_token exact rps burst now b ≡ take_token exact rps burst now b'
unfolding take_token
take_token-level rps burst now b b' e =
    ap (λ x. (record { tokens = (spend exact x).0; last = now }, (spend exact x).1)) e
