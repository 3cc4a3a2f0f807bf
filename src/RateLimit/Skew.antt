-- ===== src/RateLimit/Skew.antt =====
-- Replicas of the gateway whose clocks differ, at one bucket of internal/ratelimit/redis.go.
use velocity_gateway.Common.{
  ℕ, zero, suc, ◌+◌, ◌-◌, ◌*◌, ◌/◌, ◌≤◌, ◌≡◌, refl, ap, sym, ◌∙◌, subst, true, Text, List, [], ◌∷◌,
  Option, none, some, lookup, insert, lookup-insert_self, arith, All,
}
use velocity_gateway.Common.Int64.{Int64}
use velocity_gateway.RateLimit.Arith.{billion, exact}
use velocity_gateway.RateLimit.Bucket.{
  Config, effective, decision, MemoryLimiter, Hash, lua_min, spend, allow_script, live,
  time_to_live, RedisLimiter, redis_key, run_script, redis_allow,
}
use velocity_gateway.RateLimit.Exact.{inflow}
use velocity_gateway.RateLimit.Script.{redis_run}

-- `n` rounds of one call from a replica whose clock is ahead by `skew` and one from a replica whose
-- clock stands.
pub alternating : ℕ → Text → ℕ → ℕ → List (Text × ℕ)
alternating zero key now skew = []
alternating (suc n) key now skew = (key, now + skew) ∷ (key, now) ∷ alternating n key now skew

-- A hash with the slow replica's time, or none.
Slow : ℕ → Option (Hash exact) → Type 0
Slow now none = Unit
Slow now (some h) = h.ts ≡ now

Slow-some : (now : ℕ) (h : Hash exact) → h.ts ≡ now → Slow now (some h)
unfolding Slow
Slow-some now h e = e

Slow-none : (now : ℕ) (o : Option (Hash exact)) → o ≡ none → Slow now o
unfolding Slow
Slow-none now none e = tt
Slow-none now (some h) e = cc

spend_two : (t : ℕ) → 2 * billion ≤ t → ((spend exact t).1 ≡ true) × (billion ≤ (spend exact t).0)
unfolding spend
spend_two t h = ground arith

spend_one : (t : ℕ) → billion ≤ t → (spend exact t).1 ≡ true
unfolding spend
spend_one t h = ground arith

lua_min-enough : (k c x : ℕ) → k ≤ c → k ≤ x → k ≤ lua_min exact c x
unfolding lua_min
lua_min-enough k c x hc hx = ground arith

module _ (rps burst : Int64) (at now skew : ℕ) where
  fast :
      (stored : Option (Hash exact))
      → Slow now stored
      → 2 ≤ burst
      → 2 * billion ≤ skew * 1_000_000 * rps
      → let (h, allowed) = allow_script exact rps burst at (now + skew) stored in
        (allowed ≡ true) × (billion ≤ h.t)
  unfolding allow_script Slow
  fast none slow two enough =
      spend_two _ (lua_min-enough (2 * billion) (burst * billion) _ (omega arith) (omega arith))
  fast (some h) slow two enough =
      let gained : (now + skew - h.ts) * 1_000_000 * (rps * billion) / billion
          ≡ skew * 1_000_000 * rps =
        inflow ((now + skew - h.ts) * 1_000_000) rps
        ∙ ap (λ x. x * 1_000_000 * rps) (ahead h.ts slow) in
      spend_two _
        (lua_min-enough (2 * billion) (burst * billion) _ (omega arith) (omega (arith, gained)))
    where
      ahead : (ts : ℕ) → ts ≡ now → now + skew - ts ≡ skew
      ahead ts e = omega arith

  slow :
      (h : Hash exact)
      → billion ≤ h.t
      → 2 ≤ burst
      → let (h', allowed) = allow_script exact rps burst at now (some h) in
        (allowed ≡ true) × (h'.ts ≡ now)
  unfolding allow_script
  slow h one two =
      (spend_one _ (lua_min-enough billion (burst * billion) _ (omega arith) (omega arith)), refl)

module _ (cfg : Config) (f : MemoryLimiter exact) (at now skew c : ℕ) (cs : Text) where
  -- What a call leaves is found by the next, for no time passes on the server's clock.
  still_live : (h : Hash exact) → h.expires ≡ at + time_to_live → live exact at (some h) ≡ some h
  unfolding live
  still_live h e = ground (arith, e)

  found_again :
      (key : Text) (h : Hash exact) (hashes : List (Text × Hash exact))
      → h.expires ≡ at + time_to_live
      → live exact at (lookup key (insert key h hashes)) ≡ some h
  found_again key h hashes e = ap (live exact at) (lookup-insert_self key h hashes) ∙ still_live h e

  rounds :
      (n : ℕ) (hashes : List (Text × Hash exact))
      → Slow now (live exact at (lookup (redis_key (c ∷ cs)) hashes))
      → 2 ≤ (effective cfg).1
      → 2 * billion ≤ skew * 1_000_000 * (effective cfg).0
      → All
          (λ answer. answer ≡ decision true)
          (redis_run
            (λ _. at)
            (alternating n (c ∷ cs) now skew)
            (record { cfg = cfg; hashes = hashes; fallback = f }))
  unfolding alternating redis_run redis_allow run_script
  rounds zero hashes s two enough = tt
  rounds (suc n) hashes s two enough =
      let key = redis_key (c ∷ cs) in
      let rps = (effective cfg).0 in
      let burst = (effective cfg).1 in
      let stored = live exact at (lookup key hashes) in
      let (first, a) = allow_script exact rps burst at (now + skew) stored in
      let (granted, left) = fast rps burst at now skew stored s two enough in
      let ran = insert key first hashes in
      let found : live exact at (lookup key ran) ≡ some first =
        found_again key first hashes (unfold allow_script in refl) in
      let (second, b) = allow_script exact rps burst at now (live exact at (lookup key ran)) in
      let (granted', back) : (b ≡ true) × (second.ts ≡ now) =
        subst
          (λ x. let (h, ok) = allow_script exact rps burst at now x in (ok ≡ true) × (h.ts ≡ now))
          (sym found) (slow rps burst at now skew first left two) in
      let kept : Slow now (live exact at (lookup key (insert key second ran))) =
        subst (Slow now) (sym (found_again key second ran (unfold allow_script in refl)))
          (Slow-some now second back) in
      (
        ap decision granted,
        (ap decision granted', rounds n (insert key second ran) kept two enough),
      )

-- Two replicas share the buckets of a Redis server; the clock of one is ahead of the other's by so many
-- milliseconds that the effective rate times the difference makes two tokens, and the effective burst
-- is at least 2. Then any number of calls for a new key that is not empty that alternate between them, with no time
-- passing on either clock or the server's, are all granted, in exact arithmetic.
pub skewed_unlimited :
    (l : RedisLimiter exact) (at now skew c : ℕ) (cs : Text) (n : ℕ)
    → lookup (redis_key (c ∷ cs)) l.hashes ≡ none
    → 2 ≤ (effective l.cfg).1
    → 2 * billion ≤ skew * 1_000_000 * (effective l.cfg).0
    → All
        (λ answer. answer ≡ decision true)
        (redis_run (λ _. at) (alternating n (c ∷ cs) now skew) l)
skewed_unlimited l at now skew c cs n fresh two enough =
    rounds l.cfg l.fallback at now skew c cs n l.hashes
      (Slow-none now _ (ap (live exact at) fresh ∙ unfold live in refl)) two enough
