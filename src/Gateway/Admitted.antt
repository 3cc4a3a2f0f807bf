-- ===== src/Gateway/Admitted.antt =====
-- How many requests of one key `chatHandler` of internal/gateway/handler.go lets in.
use velocity_gateway.Common.{
  ℕ, suc, ◌+◌, ◌-◌, ◌*◌, ◌≤◌, ◌≡◌, refl, ap, subst, Bool, true, false, ◌&&◌, Text, text_eq, List,
  [], ◌∷◌, if◌then◌else◌, arith, ◌⊎◌, inl, inr, if_cases, Bool-cases,
}
use velocity_gateway.Cache.Semantic.{StoreOps}
use velocity_gateway.RateLimit.Arith.{exact, billion}
use velocity_gateway.RateLimit.Bucket.{
  decision, MemoryLimiter, allow, effective, take_token, bucket_of,
}
use velocity_gateway.RateLimit.Exact.{count}
use velocity_gateway.RateLimit.Admission.{granted, grants, Ordered, granted_bound}
use velocity_gateway.Gateway.Handler.{Codec, Reply}
use velocity_gateway.Gateway.System.{Others, in_memory, Request, Velo, serve, serve_all}
use velocity_gateway.Gateway.Asked.{let_in, parses, Asked, serve-Asked}

module _ {F32 F64 S R : Type 0} (ops : StoreOps F32 F64 S) (others : Others (MemoryLimiter exact) R)
    (codec : Codec) where
  -- How many of the requests, answered one after another, come from a key and are let in.
  unfoldable pub let_in_of : Text → List Request → Velo ops (in_memory exact others) → ℕ
  unfolding let_in
  let_in_of key [] w = 0
  let_in_of key (r ∷ rs) w =
      let (w', reply) = serve ops (in_memory exact others) codec r w in
      let rest = let_in_of key rs w' in
      if text_eq r.client.key key && let_in reply then suc rest else rest

  -- The calls of the limiter.
  calls_of : List Request → Velo ops (in_memory exact others) → List (Text × ℕ)
  calls_of [] w = []
  calls_of (r ∷ rs) w =
      let rest = calls_of rs (serve ops (in_memory exact others) codec r w).0 in
      if parses codec r.body then (r.client.key, w.now + r.pause) ∷ rest else rest

  serve_all-now :
      (rs : List Request) (w : Velo ops (in_memory exact others))
      → w.now ≤ (serve_all ops (in_memory exact others) codec rs w).now
  unfolding serve_all
  serve_all-now [] w = omega arith
  serve_all-now (r ∷ rs) w = omega (
    arith,
    (serve-Asked ops others codec r w).later,
    serve_all-now rs (serve ops (in_memory exact others) codec r w).0,
  )

  Ordered-earlier :
      (start start' : ℕ) (calls : List (Text × ℕ)) (end : ℕ)
      → start ≤ start'
      → Ordered start' calls end
      → Ordered start calls end
  unfolding Ordered
  Ordered-earlier start start' [] end le h = omega arith
  Ordered-earlier start start' ((k, now) ∷ calls) end le (h, hs) = (omega arith, hs)

  calls_of-Ordered :
      (rs : List Request) (w : Velo ops (in_memory exact others))
      → Ordered w.now (calls_of rs w) (serve_all ops (in_memory exact others) codec rs w).now
  unfolding calls_of serve_all Ordered
  calls_of-Ordered [] w = omega arith
  calls_of-Ordered (r ∷ rs) w =
      let w' = (serve ops (in_memory exact others) codec r w).0 in
      let end = (serve_all ops (in_memory exact others) codec rs w').now in
      let rest = calls_of-Ordered rs w' in
      let later = (serve-Asked ops others codec r w).later in
      if_cases (λ cs. Ordered w.now cs end) (parses codec r.body)
        (λ _.
          (omega arith, Ordered-earlier (w.now + r.pause) w'.now (calls_of rs w') end later rest))
        (λ _. Ordered-earlier w.now w'.now (calls_of rs w') end (omega (arith, later)) rest)

  -- A key that is not empty is decided.
  grants_lem :
      (c : ℕ) (cs key : Text) (t : ℕ) (l : MemoryLimiter exact)
      → text_eq key (c ∷ cs) ≡ true
      → ((allow exact key t l).1 ≡ decision false) ⊎ (grants (allow exact key t l).1 ≡ 1)
  unfolding text_eq allow grants count
  grants_lem c cs [] t l h = cc
  grants_lem c cs (d ∷ ds) t l h =
      let (rps, burst) = effective l.cfg in
      let ok = (take_token exact rps burst t (bucket_of exact (d ∷ ds) t l)).1 in
      elim (Bool-cases ok) [ inl y ↦ inr (ap count y) | inr n ↦ inl (ap decision n) ]

  -- One more request, and what the limiter granted for it.
  one_more :
      (c : ℕ) (cs key : Text) (t : ℕ) (l : MemoryLimiter exact)
      (p : Velo ops (in_memory exact others) × Reply) (asks : Bool)
      → Asked ops others codec asks key t l p
      → (n : ℕ) (rest : List (Text × ℕ)) → n ≤ granted (c ∷ cs) rest p.0.limiter
      → (if text_eq key (c ∷ cs) && let_in p.1 then suc n else n)
        ≤ granted (c ∷ cs) (if asks then (key, t) ∷ rest else rest) l
  unfolding granted
  one_more c cs key t l p false a n rest h =
      let h' = subst (λ x. n ≤ granted (c ∷ cs) rest x) a.moved h in
      ground (arith, h', a.unread refl)
  one_more c cs key t l p true a n rest h =
      let h' = subst (λ x. n ≤ granted (c ∷ cs) rest x) a.moved h in
      elim (Bool-cases (text_eq key (c ∷ cs))) [
        | inr other ↦ ground (arith, other, h')
        | inl same ↦ elim (grants_lem c cs key t l same) [
          | inl turned_away ↦ ground (arith, same, a.rejected turned_away, h')
          | inr one ↦ ground (arith, same, one, h')
        ]
      ]

  let_in-granted :
      (c : ℕ) (cs : Text) (rs : List Request) (w : Velo ops (in_memory exact others))
      → let_in_of (c ∷ cs) rs w ≤ granted (c ∷ cs) (calls_of rs w) w.limiter
  unfolding let_in_of calls_of
  let_in-granted c cs [] w = omega arith
  let_in-granted c cs (r ∷ rs) w =
      let w' = (serve ops (in_memory exact others) codec r w).0 in
      one_more c cs r.client.key (w.now + r.pause) w.limiter
        (serve ops (in_memory exact others) codec r w) (parses codec r.body)
        (serve-Asked ops others codec r w) (let_in_of (c ∷ cs) rs w') (calls_of rs w')
        (let_in-granted c cs rs w')

  -- Of any requests that the gateway answers one after another with the limiter in memory, those of one key, which is not empty,
  -- that are answered otherwise than with 400 or 429 number at most the effective burst and the effective
  -- rate times the time that all of it took, whatever the cache, the scheduler and the upstreams do, in
  -- exact arithmetic.
  pub let_in_bound :
      (c : ℕ) (cs : Text) (rs : List Request) (w : Velo ops (in_memory exact others))
      → let_in_of (c ∷ cs) rs w * billion
        ≤ (effective w.limiter.cfg).1 * billion
          + ((serve_all ops (in_memory exact others) codec rs w).now - w.now)
            * (effective w.limiter.cfg).0
  let_in_bound c cs rs w =
      let bound =
        granted_bound (c ∷ cs) w.now (serve_all ops (in_memory exact others) codec rs w).now
          (calls_of rs w) w.limiter (calls_of-Ordered rs w) in
      omega (arith, bound, let_in-granted c cs rs w)
