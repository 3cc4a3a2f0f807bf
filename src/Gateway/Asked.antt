-- ===== src/Gateway/Asked.antt =====
-- What a request to `chatHandler` of internal/gateway/handler.go does to the limiter.
use velocity_gateway.Common.{
  ℕ, ◌+◌, ◌≤◌, ◌≡◌, refl, Bool, true, false, not, ◌||◌, Text, Option, none, some, if◌then◌else◌,
  ◌==◌, arith, of_some,
}
use velocity_gateway.Cache.Store.{Entry}
use velocity_gateway.Cache.Semantic.{StoreOps}
use velocity_gateway.RateLimit.Arith.{exact}
use velocity_gateway.RateLimit.Bucket.{Answer, decision, err_no_key, MemoryLimiter, allow}
use velocity_gateway.Gateway.Handler.{ChatRequest, Job, Codec, Reply, refused}
use velocity_gateway.Gateway.Pipeline.{Client, on_answer, admit, on_parsed, parse, chat}
use velocity_gateway.Gateway.Invariant.{Preserves, proceed-IsGood}
use velocity_gateway.Gateway.System.{
  Others, in_memory, of_cache, Request, Velo, velo_deps, serve, submit_to,
}

-- A reply to a request that the limiter did not turn away and that could be read.
unfoldable pub let_in : Reply → Bool
let_in (refused status message) = not (status == 400 || status == 429)
let_in _ = true

abbrev pub parses : Codec → Option Text → Bool
parses codec none = false
parses codec (some raw) = elim (codec.unmarshal raw) [ none ↦ false | some req ↦ true ]

module _ {F32 F64 S R : Type 0} (ops : StoreOps F32 F64 S) (others : Others (MemoryLimiter exact) R)
    (codec : Codec) where
  abbrev pub Gate : Type 0
  Gate = Velo ops (in_memory exact others)

  -- The limiter has come to a state, at some time or later.
  abbrev IsAt : MemoryLimiter exact → ℕ → Gate → Type 0
  IsAt l t w = (w.limiter ≡ l) × (t ≤ w.now)

  abbrev Nothing : Text → Entry → Type 0
  Nothing prompt e = Unit {0}

  preserves :
      (l : MemoryLimiter exact) (t : ℕ)
      → Preserves (velo_deps ops (in_memory exact others)) (IsAt l t) (IsAt l t) Nothing
  preserves l t = record {
    on_first = λ w p. p;
    on_lookup = λ c h prompt w p.
        of_cache ops (in_memory exact others) (λ d. IsAt l t (d.lookup prompt w).0) others.caches c
          h p;
    on_hit = λ c h prompt e w p k. tt;
    on_store = λ c h prompt e w filled p.
        of_cache ops (in_memory exact others) (λ d. IsAt l t (d.store prompt e w)) others.caches c h
          p;
    on_submit = λ submit h job w p. submitted others.scheduler submit job w h p;
    on_direct = λ job w p. p;
    on_await = λ job w p. (p.0, omega (arith, p.1));
    on_close = λ w p. p;
    on_rejection = λ key w p. p;
    on_request = λ label w p. p;
  }
    where
      submitted :
          (o : Option (Job → R → R × Bool)) (submit : Job → Gate → Gate × Bool) (job : Job)
          (w : Gate)
          → submit_to ops (in_memory exact others) o ≡ some submit
          → IsAt l t w
          → IsAt l t (submit job w).0
      submitted none submit job w h p = cc
      submitted (some s) submit job w h p =
          of_some (λ (f : Job → Gate → Gate × Bool). IsAt l t (f job w).0) h p

  -- What a request does to the limiter at a time, and what the reply says of it.
  pub record Asked (asks : Bool) (key : Text) (t : ℕ) (l : MemoryLimiter exact) (p : Gate × Reply)
      : Type 0 where
    pub later : t ≤ p.0.now
    pub moved : p.0.limiter ≡ (if asks then (allow exact key t l).0 else l)
    pub unread : asks ≡ false → let_in p.1 ≡ false
    pub rejected : (allow exact key t l).1 ≡ decision false → let_in p.1 ≡ false

  answer-Asked :
      (client : Client) (answer : Answer) (req : ChatRequest) (raw : Text) (w w' : Gate)
      → answer ≡ (allow exact client.key w.now w.limiter).1
      → IsAt (allow exact client.key w.now w.limiter).0 w.now w'
      → Asked true client.key w.now w.limiter
          (on_answer codec (velo_deps ops (in_memory exact others)) client answer req raw w')
  unfolding on_answer let_in
  answer-Asked client (decision true) req raw w w' e p =
      let (done, _) =
        proceed-IsGood codec (velo_deps ops (in_memory exact others)) _ _ Nothing
          (preserves (allow exact client.key w.now w.limiter).0 w.now) client req raw w' p in
      record { later = done.1; moved = done.0; unread = λ h. cc; rejected = λ h. cc }
  answer-Asked client (decision false) req raw w w' e p = record {
    later = p.1;
    moved = p.0;
    unread = λ h. refl;
    rejected = λ h. refl;
  }
  answer-Asked client err_no_key req raw w w' e p =
      let (done, _) =
        proceed-IsGood codec (velo_deps ops (in_memory exact others)) _ _ Nothing
          (preserves (allow exact client.key w.now w.limiter).0 w.now) client req raw w' p in
      record { later = done.1; moved = done.0; unread = λ h. cc; rejected = λ h. cc }

  parsed-Asked :
      (client : Client) (o : Option ChatRequest) (raw : Text) (w : Gate)
      → Asked
          (elim o [ none ↦ false | some req ↦ true ])
          client.key
          w.now
          w.limiter
          (on_parsed codec (velo_deps ops (in_memory exact others)) client o raw w)
  unfolding on_parsed admit let_in
  parsed-Asked client none raw w = record {
    later = omega arith;
    moved = refl;
    unread = λ h. refl;
    rejected = λ h. refl;
  }
  parsed-Asked client (some req) raw w =
      answer-Asked client (allow exact client.key w.now w.limiter).1 req raw w _ refl
        (refl, omega arith)

  pub serve-Asked :
      (r : Request) (w : Gate)
      → Asked
          (parses codec r.body)
          r.client.key
          (w.now + r.pause)
          w.limiter
          (serve ops (in_memory exact others) codec r w)
  unfolding serve chat parse let_in
  serve-Asked r w = by_body r.body
    where
      by_body :
          (body : Option Text)
          → Asked (parses codec body) r.client.key (w.now + r.pause) w.limiter (
              chat codec
                (velo_deps ops (in_memory exact others))
                r.client
                body
                (record w { now = w.now + r.pause }))
      by_body none = record {
        later = omega arith;
        moved = refl;
        unread = λ h. refl;
        rejected = λ h. refl;
      }
      by_body (some raw) =
          let a =
            parsed-Asked r.client (codec.unmarshal raw) raw (record w { now = w.now + r.pause }) in
          record { later = a.later; moved = a.moved; unread = a.unread; rejected = a.rejected }
