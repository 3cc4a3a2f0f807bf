-- ===== src/Gateway/Alike.antt =====
-- The stages of `chatHandler` of internal/gateway/handler.go under two records of components that
-- differ in the limiter, or in a cache that the request does not use.
use velocity_gateway.Common.{
  ◌≡◌, refl, ap, ◌∙◌, Bool, true, false, Text, codes, [], Option, none, some, if◌then◌else◌,
}
use velocity_gateway.Cache.Store.{Entry}
use velocity_gateway.Cache.Semantic.{Found, miss, error, hit}
use velocity_gateway.RateLimit.Bucket.{Answer, decision, err_no_key}
use velocity_gateway.Gateway.Stream.{stream_proxy}
use velocity_gateway.Gateway.Handler.{
  ChatRequest, flatten_prompt, extract_assistant_content, Job, Upstream, Waited, client_gone,
  job_failed, responded, CacheOps, Deps, Codec, refused, streamed, forwarded,
}
use velocity_gateway.Gateway.Pipeline.{
  Client, usable, error_json, keep_content, forward, relay, respond, wait, hand_off, on_found,
  look_up, proceed, on_answer, admit,
}

module _ {W : Type 0} (codec : Codec) (d : Deps W) (client : Client)
    (limiter : Option (Text → W → W × Answer)) (cache : Option (CacheOps W))
    (same : usable client.no_store cache ≡ usable client.no_store d.cache) where
  -- The same components but for the limiter and a cache that is used alike.
  abbrev pub other : Deps W
  other = record d { limiter = limiter; cache = cache }

  forward-same :
      (prompt : Text) (req : ChatRequest) (backend : Text) (body : Option Text) (w : W)
      → forward codec other client prompt req backend body w
        ≡ forward codec d client prompt req backend body w
  unfolding forward
  forward-same prompt req backend none w = refl
  forward-same prompt req backend (some body) w =
      let e : Entry = record {
        model = req.model;
        content = extract_assistant_content (codec.choices body);
        raw = body;
        created_at = 0;
      } in
      ap (λ c. (d.close_body (keep_content codec d client c prompt e w), forwarded backend body))
        same

  relay-same :
      (prompt : Text) (req : ChatRequest) (up : Upstream) (w : W)
      → relay codec other client prompt req up w ≡ relay codec d client prompt req up w
  unfolding relay
  relay-same prompt req up w =
      let s = stream_proxy codec.delta_of codec.flushes up.reads in
      let e : Entry = record { model = req.model; content = s.content; raw = []; created_at = 0 } in
      ap (λ c. (d.close_body (keep_content codec d client c prompt e w), streamed up.backend s))
        same

  respond-same :
      (prompt : Text) (req : ChatRequest) (waited : Waited) (w : W)
      → respond codec other client prompt req waited w ≡ respond codec d client prompt req waited w
  unfolding respond
  respond-same prompt req client_gone w = refl
  respond-same prompt req (job_failed message) w = refl
  respond-same prompt req (responded up) w =
      ap (λ x. if req.stream then x else forward codec other client prompt req up.backend up.body w)
        (relay-same prompt req up w)
      ∙ ap (λ x. if req.stream then relay codec d client prompt req up w else x)
          (forward-same prompt req up.backend up.body w)

  wait-same :
      (prompt : Text) (req : ChatRequest) (job : Job) (w : W)
      → wait codec other client prompt req job w ≡ wait codec d client prompt req job w
  unfolding wait
  wait-same prompt req job w = let (w', waited) = d.await job w in respond-same prompt req waited w'

  hand_off-same :
      (o : Option (Job → W → W × Bool)) (prompt : Text) (req : ChatRequest) (job : Job) (w : W)
      → hand_off codec other client o prompt req job w ≡ hand_off codec d client o prompt req job w
  unfolding hand_off
  hand_off-same none prompt req job w = wait-same prompt req job (d.dispatch_direct job w)
  hand_off-same (some submit) prompt req job w =
      let (w', accepted) = submit job w in
      ap
        (λ x.
          if accepted then x else (w', refused 503 (error_json (codes "server busy, try again"))))
        (wait-same prompt req job w')

  on_found-same :
      (found : Found) (prompt : Text) (req : ChatRequest) (job : Job) (w : W)
      → on_found codec other client found prompt req job w
        ≡ on_found codec d client found prompt req job w
  unfolding on_found
  on_found-same (hit e) prompt req job w = refl
  on_found-same miss prompt req job w = hand_off-same d.scheduler prompt req job w
  on_found-same error prompt req job w = hand_off-same d.scheduler prompt req job w

  look_up-same :
      (o : Option (CacheOps W)) (prompt : Text) (req : ChatRequest) (job : Job) (w : W)
      → look_up codec other client o prompt req job w ≡ look_up codec d client o prompt req job w
  unfolding look_up
  look_up-same none prompt req job w = hand_off-same d.scheduler prompt req job w
  look_up-same (some c) prompt req job w =
      let (w', found) = c.lookup prompt w in on_found-same found prompt req job w'

  pub proceed-same :
      (req : ChatRequest) (raw : Text) (w : W)
      → proceed codec other client req raw w ≡ proceed codec d client req raw w
  unfolding proceed
  proceed-same req raw w =
      let job : Job = record { model = req.model; stream = req.stream; body = raw } in
      let prompt = flatten_prompt req.messages in
      look_up-same (usable client.no_store cache) prompt req job w
      ∙ ap (λ o. look_up codec d client o prompt req job w) same

  on_answer-same :
      (answer : Answer) (req : ChatRequest) (raw : Text) (w : W)
      → on_answer codec other client answer req raw w ≡ on_answer codec d client answer req raw w
  unfolding on_answer
  on_answer-same (decision true) req raw w = proceed-same req raw w
  on_answer-same (decision false) req raw w = refl
  on_answer-same err_no_key req raw w = proceed-same req raw w

  pub admit-same :
      (o : Option (Text → W → W × Answer)) (req : ChatRequest) (raw : Text) (w : W)
      → admit codec other client o req raw w ≡ admit codec d client o req raw w
  unfolding admit
  admit-same none req raw w = proceed-same req raw w
  admit-same (some allow) req raw w =
      let (w', answer) = allow client.key w in on_answer-same answer req raw w'
