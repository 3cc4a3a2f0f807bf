-- ===== src/Gateway/Invariant.antt =====
-- What every operation that `chatHandler` of internal/gateway/handler.go calls keeps, the handler keeps.
use velocity_gateway.Common.{◌≡◌, refl, Bool, true, false, Text, Option, none, some, if_cases}
use velocity_gateway.Cache.Store.{Entry}
use velocity_gateway.Cache.Semantic.{Found, miss, error, hit}
use velocity_gateway.RateLimit.Bucket.{Answer, decision, err_no_key}
use velocity_gateway.Gateway.Stream.{is_blank}
use velocity_gateway.Gateway.Handler.{
  ChatRequest, flatten_prompt, Job, Waited, client_gone, job_failed, responded, CacheOps, Deps,
  Codec, Reply, refused, no_client, cached, streamed, forwarded,
}
use velocity_gateway.Gateway.Pipeline.{
  Client, usable, keep_content, forward, relay, respond, wait, hand_off, on_found, look_up, proceed,
  on_answer, admit, on_parsed, parse, chat,
}

-- Every operation but the limiter's keeps a statement about the state, and a hit of the cache means what
-- it should for the prompt; at first the state has another statement, up to the lookup.
pub record Preserves {W : Type 0} (d : Deps W) (First P : W → Type 0)
    (Earned : Text → Entry → Type 0) : Type 0 where
  pub on_first : (w : W) → First w → P w
  pub on_lookup :
      (c : CacheOps W)
      → d.cache ≡ some c
      → (prompt : Text) (w : W) → First w
      → P (c.lookup prompt w).0
  pub on_hit :
      (c : CacheOps W)
      → d.cache ≡ some c
      → (prompt : Text) (e : Entry) (w : W) → First w
      → (c.lookup prompt w).1 ≡ hit e
      → Earned prompt e
  pub on_store :
      (c : CacheOps W)
      → d.cache ≡ some c
      → (prompt : Text) (e : Entry) (w : W) → is_blank e.content ≡ false
      → P w
      → P (c.store prompt e w)
  pub on_submit :
      (submit : Job → W → W × Bool)
      → d.scheduler ≡ some submit
      → (job : Job) (w : W) → P w
      → P (submit job w).0
  pub on_direct : (job : Job) (w : W) → P w → P (d.dispatch_direct job w)
  pub on_await : (job : Job) (w : W) → P w → P (d.await job w).0
  pub on_close : (w : W) → P w → P (d.close_body w)
  pub on_rejection : (key : Text) (w : W) → P w → P (d.count_rejection key w)
  pub on_request : (label : Text) (w : W) → P w → P (d.count_request label w)

-- What a reply owes: a cached entry is earned.
abbrev pub Owes : (Entry → Type 0) → Reply → Type 0
Owes Q (cached stream e) = Q e
Owes Q _ = Unit {0}

-- An entry is earned for the prompt of the request that a body decodes to.
pub record EarnedFor (codec : Codec) (Earned : Text → Entry → Type 0) (body : Option Text)
    (e : Entry) : Type 0 where
  pub raw : Text
  pub req : ChatRequest
  pub read : body ≡ some raw
  pub parsed : codec.unmarshal raw ≡ some req
  pub earned : Earned (flatten_prompt req.messages) e

module _ {W : Type 0} (codec : Codec) (d : Deps W) (First P : W → Type 0)
    (Earned : Text → Entry → Type 0) (keeps : Preserves d First P Earned) (client : Client) where
  -- The state and the reply are as they should be.
  abbrev IsGood : Text → W × Reply → Type 0
  IsGood prompt p = P p.0 × Owes (Earned prompt) p.1

  usable-some :
      (no_store : Bool) (o : Option (CacheOps W)) (c : CacheOps W)
      → usable no_store o ≡ some c
      → o ≡ some c
  usable-some true o c h = cc
  usable-some false o c h = h

  keep_content-keeps :
      (o : Option (CacheOps W)) (prompt : Text) (e : Entry) (w : W)
      → usable client.no_store d.cache ≡ o
      → P w
      → P (keep_content codec d client o prompt e w)
  unfolding keep_content
  keep_content-keeps none prompt e w h p = p
  keep_content-keeps (some c) prompt e w h p =
      if_cases P (is_blank e.content) (λ _. p)
        (λ filled. keeps.on_store c (usable-some client.no_store d.cache c h) prompt e w filled p)

  forward-IsGood :
      (prompt : Text) (req : ChatRequest) (backend : Text) (body : Option Text) (w : W)
      → P w
      → IsGood prompt (forward codec d client prompt req backend body w)
  unfolding forward
  forward-IsGood prompt req backend none w p = (keeps.on_close w p, tt)
  forward-IsGood prompt req backend (some body) w p =
      (keeps.on_close _ (keep_content-keeps (usable client.no_store d.cache) prompt _ w refl p), tt)

  respond-IsGood :
      (prompt : Text) (req : ChatRequest) (waited : Waited) (w : W)
      → P w
      → IsGood prompt (respond codec d client prompt req waited w)
  unfolding respond relay
  respond-IsGood prompt req client_gone w p = (p, tt)
  respond-IsGood prompt req (job_failed message) w p = (p, tt)
  respond-IsGood prompt req (responded up) w p =
      if_cases (IsGood prompt) req.stream
        (λ _. (
          keeps.on_close _ (keep_content-keeps (usable client.no_store d.cache) prompt _ w refl p),
          tt,
        ))
        (λ _. forward-IsGood prompt req up.backend up.body w p)

  wait-IsGood :
      (prompt : Text) (req : ChatRequest) (job : Job) (w : W)
      → P w
      → IsGood prompt (wait codec d client prompt req job w)
  unfolding wait
  wait-IsGood prompt req job w p =
      respond-IsGood prompt req (d.await job w).1 (d.await job w).0 (keeps.on_await job w p)

  hand_off-IsGood :
      (o : Option (Job → W → W × Bool)) (prompt : Text) (req : ChatRequest) (job : Job) (w : W)
      → d.scheduler ≡ o
      → P w
      → IsGood prompt (hand_off codec d client o prompt req job w)
  unfolding hand_off
  hand_off-IsGood none prompt req job w h p =
      wait-IsGood prompt req job (d.dispatch_direct job w) (keeps.on_direct job w p)
  hand_off-IsGood (some submit) prompt req job w h p =
      let p' = keeps.on_submit submit h job w p in
      if_cases (IsGood prompt) (submit job w).1
        (λ _. wait-IsGood prompt req job (submit job w).0 p') (λ _. (p', tt))

  on_found-IsGood :
      (found : Found) (prompt : Text) (req : ChatRequest) (job : Job) (w : W)
      → ((e : Entry) → found ≡ hit e → Earned prompt e)
      → P w
      → IsGood prompt (on_found codec d client found prompt req job w)
  unfolding on_found
  on_found-IsGood miss prompt req job w q p = hand_off-IsGood d.scheduler prompt req job w refl p
  on_found-IsGood error prompt req job w q p = hand_off-IsGood d.scheduler prompt req job w refl p
  on_found-IsGood (hit e) prompt req job w q p = (p, q e refl)

  look_up-IsGood :
      (o : Option (CacheOps W)) (prompt : Text) (req : ChatRequest) (job : Job) (w : W)
      → usable client.no_store d.cache ≡ o
      → First w
      → IsGood prompt (look_up codec d client o prompt req job w)
  unfolding look_up
  look_up-IsGood none prompt req job w h p =
      hand_off-IsGood d.scheduler prompt req job w refl (keeps.on_first w p)
  look_up-IsGood (some c) prompt req job w h p =
      let held = usable-some client.no_store d.cache c h in
      on_found-IsGood (c.lookup prompt w).1 prompt req job (c.lookup prompt w).0
        (λ e k. keeps.on_hit c held prompt e w p k) (keeps.on_lookup c held prompt w p)

  pub proceed-IsGood :
      (req : ChatRequest) (raw : Text) (w : W)
      → First w
      → IsGood (flatten_prompt req.messages) (proceed codec d client req raw w)
  unfolding proceed
  proceed-IsGood req raw w p =
      look_up-IsGood (usable client.no_store d.cache) (flatten_prompt req.messages) req _ w refl p

  -- The limiter keeps the first statement.
  abbrev LimiterKeeps : Type 0
  LimiterKeeps =
      (allow : Text → W → W × Answer)
      → d.limiter ≡ some allow
      → (key : Text) (w : W) → First w
      → First (allow key w).0

  module _ (limiter_keeps : LimiterKeeps) where
    on_answer-IsGood :
        (answer : Answer) (req : ChatRequest) (raw : Text) (w : W)
        → First w
        → IsGood (flatten_prompt req.messages) (on_answer codec d client answer req raw w)
    unfolding on_answer
    on_answer-IsGood (decision true) req raw w p = proceed-IsGood req raw w p
    on_answer-IsGood (decision false) req raw w p =
        (keeps.on_rejection client.key w (keeps.on_first w p), tt)
    on_answer-IsGood err_no_key req raw w p = proceed-IsGood req raw w p

    admit-IsGood :
        (o : Option (Text → W → W × Answer)) (req : ChatRequest) (raw : Text) (w : W)
        → d.limiter ≡ o
        → First w
        → IsGood (flatten_prompt req.messages) (admit codec d client o req raw w)
    unfolding admit
    admit-IsGood none req raw w h p = proceed-IsGood req raw w p
    admit-IsGood (some allow) req raw w h p =
        on_answer-IsGood (allow client.key w).1 req raw (allow client.key w).0
          (limiter_keeps allow h client.key w p)

    Owes-more :
        (Q R : Entry → Type 0) (reply : Reply)
        → ((e : Entry) → Q e → R e)
        → Owes Q reply
        → Owes R reply
    Owes-more Q R (refused status message) f h = tt
    Owes-more Q R no_client f h = tt
    Owes-more Q R (cached stream e) f h = f e h
    Owes-more Q R (streamed backend s) f h = tt
    Owes-more Q R (forwarded backend body) f h = tt

    on_parsed-IsGood :
        (o : Option ChatRequest) (raw : Text) (w : W)
        → codec.unmarshal raw ≡ o
        → First w
        → let p = on_parsed codec d client o raw w in
          P p.0 × Owes (EarnedFor codec Earned (some raw)) p.1
    unfolding on_parsed
    on_parsed-IsGood none raw w h p = (keeps.on_first w p, tt)
    on_parsed-IsGood (some req) raw w h p =
        let (p', owes) = admit-IsGood d.limiter req raw w refl p in
        (
          p',
          Owes-more (Earned (flatten_prompt req.messages)) (EarnedFor codec Earned (some raw)) _
              (λ e earned. record {
                raw = raw;
                req = req;
                read = refl;
                parsed = h;
                earned = earned;
              })
              owes,
        )

    pub chat-keeps :
        (body : Option Text) (w : W)
        → First w
        → let p = chat codec d client body w in P p.0 × Owes (EarnedFor codec Earned body) p.1
    unfolding chat parse
    chat-keeps none w p = (keeps.on_request _ w (keeps.on_first w p), tt)
    chat-keeps (some raw) w p =
        let (p', owes) = on_parsed-IsGood (codec.unmarshal raw) raw w refl p in
        (keeps.on_request _ _ p', owes)
