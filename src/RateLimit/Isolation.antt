-- ===== src/RateLimit/Isolation.antt =====
-- What `Allow` of internal/ratelimit leaves alone, and the errors that it returns.
use velocity_gateway.Common.{
  ℕ, ◌≡◌, refl, ap, ◌∙◌, ◌≢◌, false, Text, text_eq, [], ◌∷◌, lookup, insert, lookup-insert_ne,
}
use velocity_gateway.RateLimit.Arith.{Arith}
use velocity_gateway.RateLimit.Bucket.{
  effective, decision, err_no_key, MemoryLimiter, bucket_of, bucket_or_full, take_token, allow,
  Server, answers, fails, loses, RedisLimiter, redis_allow,
}

module _ (m : Arith) where
  -- The buckets after `Allow`, for a key that is not empty.
  allow_lem :
      (c : ℕ) (cs : Text) (now : ℕ) (l : MemoryLimiter m)
      → let key = c ∷ cs in
        let taken =
          take_token m (effective l.cfg).0 (effective l.cfg).1 now (bucket_of m key now l) in
        allow m key now l ≡ (record l { buckets = insert key taken.0 l.buckets }, decision taken.1)
  unfolding allow
  allow_lem c cs now l = refl

  pub others_kept :
      (key j : Text) (now : ℕ) (l : MemoryLimiter m)
      → text_eq key j ≡ false
      → (lookup j (allow m key now l).0.buckets ≡ lookup j l.buckets)
        × ((allow m key now l).0.cfg ≡ l.cfg)
  unfolding allow
  others_kept [] j now l ne = (refl, refl)
  others_kept (c ∷ cs) j now l ne = (lookup-insert_ne (c ∷ cs) j _ l.buckets ne, refl)

  bucket_of_same :
      (j : Text) (now : ℕ) (l l' : MemoryLimiter m)
      → lookup j l'.buckets ≡ lookup j l.buckets
      → l'.cfg ≡ l.cfg
      → bucket_of m j now l' ≡ bucket_of m j now l
  unfolding bucket_of
  bucket_of_same j now l l' e f =
      ap (λ x. bucket_or_full m (effective x).1 now (lookup j l'.buckets)) f
      ∙ ap (λ x. bucket_or_full m (effective l.cfg).1 now x) e

  allow_same :
      (j : Text) (now : ℕ) (l l' : MemoryLimiter m)
      → lookup j l'.buckets ≡ lookup j l.buckets
      → l'.cfg ≡ l.cfg
      → (allow m j now l').1 ≡ (allow m j now l).1
  unfolding allow
  allow_same [] now l l' e f = refl
  allow_same (c ∷ cs) now l l' e f =
      ap
        (λ x.
          decision
            (take_token m (effective x).0 (effective x).1 now (bucket_of m (c ∷ cs) now l')).1)
        f
      ∙ ap (λ x. decision (take_token m (effective l.cfg).0 (effective l.cfg).1 now x).1)
          (bucket_of_same (c ∷ cs) now l l' e f)

  -- The buckets are independent: a call for one key does not change the answer to the next call for
  -- another key, at whatever times.
  allow_independent :
      (key j : Text) (now later : ℕ) (l : MemoryLimiter m)
      → text_eq key j ≡ false
      → (allow m j later (allow m key now l).0).1 ≡ (allow m j later l).1
  allow_independent key j now later l ne =
      let (kept, cfg) = others_kept key j now l ne in
      allow_same j later l (allow m key now l).0 kept cfg

  allow-decides :
      (c : ℕ) (cs : Text) (now : ℕ) (l : MemoryLimiter m) → (allow m (c ∷ cs) now l).1 ≢ err_no_key
  unfolding allow
  allow-decides c cs now l h = cc

  -- `RedisLimiter.Allow` returns a decision for every key that is not empty, whatever the server does.
  redis_allow-decides :
      (server : Server) (c : ℕ) (cs : Text) (now_ms now : ℕ) (l : RedisLimiter m)
      → (redis_allow m server (c ∷ cs) now_ms now l).1 ≢ err_no_key
  unfolding redis_allow
  redis_allow-decides (answers server_ms) c cs now_ms now l h = cc
  redis_allow-decides fails c cs now_ms now l h = cc
  redis_allow-decides (loses server_ms) c cs now_ms now l h = cc
