-- ===== src/Gateway/Closing.antt =====
-- That `chatHandler` of internal/gateway/handler.go closes the body of a response once.
use velocity_gateway.Common.{
  ℕ, suc, ◌+◌, ◌≡◌, refl, ap, ◌∙◌, Bool, true, false, Text, Option, none, some, if_cases, arith,
}
use velocity_gateway.Cache.Store.{Entry}
use velocity_gateway.RateLimit.Bucket.{Answer}
use velocity_gateway.Gateway.Stream.{is_blank}
use velocity_gateway.Gateway.Handler.{
  ChatRequest, Job, Waited, client_gone, job_failed, responded, CacheOps, Deps, Codec, Reply,
}
use velocity_gateway.Gateway.Pipeline.{Client, usable, keep_content, forward, relay, respond}

module _ {W : Type 0} (d : Deps W) where
  abbrev counted_cache : CacheOps W → CacheOps (W × ℕ)
  counted_cache c = record {
    lookup = λ prompt p. let (w, found) = c.lookup prompt p.0 in ((w, p.1), found);
    store = λ prompt e p. (c.store prompt e p.0, p.1);
  }

  abbrev each : {A B : Type 0} → (A → B) → Option A → Option B
  each f none = none
  each f (some x) = some (f x)

  -- The same components, with a count of the bodies that are closed.
  abbrev pub counted : Deps (W × ℕ)
  counted = record {
    limiter =
        each (λ (allow : Text → W → W × Answer) key p. let (w, a) = allow key p.0 in ((w, p.1), a))
          d.limiter;
    cache = each counted_cache d.cache;
    scheduler =
        each (λ (submit : Job → W → W × Bool) job p. let (w, ok) = submit job p.0 in ((w, p.1), ok))
          d.scheduler;
    dispatch_direct = λ job p. (d.dispatch_direct job p.0, p.1);
    await = λ job p. let (w, waited) = d.await job p.0 in ((w, p.1), waited);
    close_body = λ p. (d.close_body p.0, suc p.1);
    count_rejection = λ key p. (d.count_rejection key p.0, p.1);
    count_request = λ label p. (d.count_request label p.0, p.1);
  }

  -- The bodies that a wait has brought.
  abbrev pub bodies : Waited → ℕ
  bodies (responded up) = 1
  bodies _ = 0

  module _ (codec : Codec) (client : Client) where
    keep_content-count :
        (o : Option (CacheOps W)) (prompt : Text) (e : Entry) (p : W × ℕ)
        → (keep_content codec counted client
            (usable client.no_store (each counted_cache o))
            prompt
            e
            p).1
          ≡ p.1
    unfolding keep_content
    keep_content-count o prompt e p = by_usable client.no_store o
      where
        by_usable :
            (no_store : Bool) (o : Option (CacheOps W))
            → (keep_content codec counted client
                (usable no_store (each counted_cache o))
                prompt
                e
                p).1
              ≡ p.1
        by_usable true o = refl
        by_usable false none = refl
        by_usable false (some c) =
            if_cases (λ (q : W × ℕ). q.1 ≡ p.1) (is_blank e.content) (λ _. refl) (λ _. refl)

    forward-count :
        (prompt : Text) (req : ChatRequest) (backend : Text) (body : Option Text) (p : W × ℕ)
        → (forward codec counted client prompt req backend body p).0.1 ≡ suc p.1
    unfolding forward
    forward-count prompt req backend none p = refl
    forward-count prompt req backend (some body) p = ap suc (keep_content-count d.cache prompt _ p)

    -- When the wait for a job ends with a response, the handler closes its body exactly once, whether the
    -- body can be read or not and whether it is streamed or forwarded. When the client is gone first it
    -- closes none, not even the one that the job's response brings later.
    pub respond-closes :
        (prompt : Text) (req : ChatRequest) (waited : Waited) (w : W) (n : ℕ)
        → (respond codec counted client prompt req waited (w, n)).0.1 ≡ bodies waited + n
    unfolding respond relay
    respond-closes prompt req client_gone w n = omega arith
    respond-closes prompt req (job_failed message) w n = omega arith
    respond-closes prompt req (responded up) w n =
        if_cases (λ (q : (W × ℕ) × Reply). q.0.1 ≡ 1 + n) req.stream
          (λ _. ap suc (keep_content-count d.cache prompt _ (w, n)) ∙ omega arith)
          (λ _. forward-count prompt req up.backend up.body (w, n) ∙ omega arith)
