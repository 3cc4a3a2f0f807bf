-- ===== src/RateLimit/Script.antt =====
-- The limiter of internal/ratelimit/redis.go beside that of memory.go, in exact arithmetic.
use velocity_gateway.Common.{
  ℕ, ◌+◌, ◌*◌, ◌≡◌, refl, ap, sym, ◌∙◌, subst, Bool, true, Text, List, [], ◌∷◌, Option, none, some,
  lookup, insert, lookup-insert_self, lookup-insert_ne, arith, text_eq, text_eq_sound, Bool-cases,
  inl, inr, of_some, if_cases, ltb, ◌≤◌,
}
use velocity_gateway.Common.Int64.{Int64}
use velocity_gateway.RateLimit.Arith.{exact}
use velocity_gateway.RateLimit.Bucket.{
  Config, effective, Answer, decision, err_no_key, Bucket, MemoryLimiter, new_memory_limiter,
  new_redis_limiter, bucket_or_full, bucket_of, take_token, allow, Hash, allow_script, live,
  time_to_live, answers, RedisLimiter, redis_key, run_script, redis_allow,
}
use velocity_gateway.RateLimit.Hashes.{
  as_bucket, script-take, script-full, rested, new_full, take_token-level,
}

-- A hash is the bucket, and its time to live runs from its last call.
Alike : Option (Hash exact) → Option (Bucket exact) → Type 0
Alike none none = Unit {0}
Alike (some h) (some b) = (as_bucket h ≡ b) × (h.expires ≡ h.ts + time_to_live)
Alike _ _ = ⊥

script_lem :
    (rps burst : Int64) (now : ℕ) (o : Option (Hash exact)) (b : Option (Bucket exact))
    → burst ≤ 3600 * rps
    → Alike o b
    → let (kept, allowed) = allow_script exact rps burst now now (live exact now o) in
      (as_bucket kept, allowed)
      ≡ take_token exact rps burst
          (now * 1_000_000)
          (bucket_or_full exact burst (now * 1_000_000) b)
unfolding live Alike
script_lem rps burst now none none fills alike = script-full rps burst now now
script_lem rps burst now (some h) (some b) fills (same, expires) =
    if_cases
      (λ o.
        let (kept, allowed) = allow_script exact rps burst now now o in
        (as_bucket kept, allowed)
        ≡ take_token exact rps burst (now * 1_000_000)
            (bucket_or_full exact burst (now * 1_000_000) (some b)))
      (ltb h.expires now)
      (λ gone.
        script-full rps burst now now
        ∙ take_token-level rps burst (now * 1_000_000) _ (as_bucket h) (
            new_full rps burst (now * 1_000_000)
            ∙ sym (rested rps burst now h.ts h.t fills (ground (arith, gone, expires))))
        ∙ ap (take_token exact rps burst (now * 1_000_000)) same
        ∙ unfold bucket_or_full in refl)
      (λ kept.
        script-take rps burst now now h
        ∙ ap (take_token exact rps burst (now * 1_000_000)) same
        ∙ unfold bucket_or_full in refl)
script_lem rps burst now none (some b) fills alike = absurd alike
script_lem rps burst now (some h) none fills alike = absurd alike

-- The hashes of the server are the buckets of a limiter in one process.
Same : List (Text × Hash exact) → List (Text × Bucket exact) → Type 0
Same hashes buckets = (key : Text) → Alike (lookup (redis_key key) hashes) (lookup key buckets)

redis_key-eq : (k j : Text) → text_eq (redis_key k) (redis_key j) ≡ text_eq k j
unfolding text_eq
redis_key-eq k j = refl

insert-Same :
    (key : Text) (h : Hash exact) (hashes : List (Text × Hash exact))
    (buckets : List (Text × Bucket exact))
    → h.expires ≡ h.ts + time_to_live
    → Same hashes buckets
    → Same (insert (redis_key key) h hashes) (insert key (as_bucket h) buckets)
unfolding Same Alike
insert-Same key h hashes buckets lives same j = elim (Bool-cases (text_eq key j)) [
  | inl e ↦
      subst
        (λ x.
          Alike (lookup (redis_key x) (insert (redis_key key) h hashes))
            (lookup x (insert key (as_bucket h) buckets)))
        (text_eq_sound key j e)
        (subst (λ o. Alike o (lookup key (insert key (as_bucket h) buckets)))
          (sym (lookup-insert_self (redis_key key) h hashes))
          (subst (Alike (some h)) (sym (lookup-insert_self key (as_bucket h) buckets))
            (refl, lives)))
  | inr ne ↦
      subst (λ o. Alike o (lookup j (insert key (as_bucket h) buckets)))
        (sym (lookup-insert_ne (redis_key key) (redis_key j) h hashes (redis_key-eq key j ∙ ne)))
        (subst (Alike (lookup (redis_key j) hashes))
          (sym (lookup-insert_ne key j (as_bucket h) buckets ne)) (same j))
]

-- The answers to a sequence of calls, each a key and a time in milliseconds, of the limiter in one
-- process and of one that shares its buckets through a server that answers, by what the server's clock
-- shows at a time of the caller's.
unfoldable pub memory_run : List (Text × ℕ) → MemoryLimiter exact → List Answer
memory_run [] l = []
memory_run ((key, now) ∷ calls) l =
    let (l', answer) = allow exact key (now * 1_000_000) l in answer ∷ memory_run calls l'

unfoldable pub redis_run : (ℕ → ℕ) → List (Text × ℕ) → RedisLimiter exact → List Answer
redis_run clock [] l = []
redis_run clock ((key, now) ∷ calls) l =
    let (l', answer) = redis_allow exact (answers (clock now)) key now (now * 1_000_000) l in
    answer ∷ redis_run clock calls l'

module _ (cfg : Config) (fills : (effective cfg).1 ≤ 3600 * (effective cfg).0) where
  redis-memory :
      (calls : List (Text × ℕ)) (hashes : List (Text × Hash exact))
      (buckets : List (Text × Bucket exact)) (f : MemoryLimiter exact)
      → Same hashes buckets
      → redis_run (λ now. now) calls (record { cfg = cfg; hashes = hashes; fallback = f })
        ≡ memory_run calls (record { cfg = cfg; buckets = buckets })
  unfolding redis_run memory_run redis_allow run_script allow bucket_of Same
  redis-memory [] hashes buckets f same = refl
  redis-memory (([], now) ∷ calls) hashes buckets f same =
      ap (λ x. err_no_key ∷ x) (redis-memory calls hashes buckets f same)
  redis-memory (((c ∷ cs), now) ∷ calls) hashes buckets f same =
      let key = c ∷ cs in
      let rps = (effective cfg).0 in
      let burst = (effective cfg).1 in
      let stored = live exact now (lookup (redis_key key) hashes) in
      let (kept, allowed) = allow_script exact rps burst now now stored in
      ap (λ x. decision allowed ∷ x)
        (redis-memory calls (insert (redis_key key) kept hashes)
          (insert key (as_bucket kept) buckets) f
          (insert-Same key kept hashes buckets (unfold allow_script in refl) same))
      ∙ ap
          (λ (x : Bucket exact × Bool).
            decision x.1
            ∷ memory_run calls (record { cfg = cfg; buckets = insert key x.0 buckets }))
          (script_lem rps burst now (lookup (redis_key key) hashes) (lookup key buckets) fills
            (same key))

-- A limiter that was set up on an empty server, and whose server answers every call and has the clock of
-- the caller, gives the answers of a limiter in one process at the same times, in exact arithmetic, if
-- the effective burst is at most what the effective rate makes in the hour that Redis keeps an idle key.
pub redis_refines_memory :
    (cfg : Config) (calls : List (Text × ℕ)) (l : RedisLimiter exact)
    → (effective cfg).1 ≤ 3600 * (effective cfg).0
    → new_redis_limiter exact true [] cfg ≡ some l
    → redis_run (λ now. now) calls l ≡ memory_run calls (new_memory_limiter exact cfg)
unfolding new_redis_limiter new_memory_limiter Same Alike lookup
redis_refines_memory cfg calls l fills made =
    of_some
      (λ (r : RedisLimiter exact).
        redis_run (λ now. now) calls r ≡ memory_run calls (new_memory_limiter exact cfg))
      made (redis-memory cfg fills calls [] [] (new_memory_limiter exact cfg) (λ key. tt))
