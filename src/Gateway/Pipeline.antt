-- ===== src/Gateway/Pipeline.antt =====
-- The stages of `chatHandler` of internal/gateway/handler.go, each with the ones that follow it.
use velocity_gateway.Common.{Bool, false, Text, codes, [], ◌++◌, Option, none, some, if◌then◌else◌}
use velocity_gateway.Cache.Store.{Entry}
use velocity_gateway.Cache.Semantic.{Found, hit}
use velocity_gateway.RateLimit.Bucket.{Answer, decision}
use velocity_gateway.Gateway.Stream.{stream_proxy, is_blank}
use velocity_gateway.Gateway.Handler.{
  ChatRequest, flatten_prompt, extract_assistant_content, status_label, Job, Upstream, Waited,
  client_gone, job_failed, responded, CacheOps, Deps, Codec, Reply, refused, no_client, cached,
  streamed, forwarded, status_of,
}

abbrev pub error_json : Text → Text
error_json message = codes "{\"error\":\"" ++ (message ++ codes "\"}")

-- `s.deps.Cache != nil && !bypassCache`
abbrev pub usable {ℓ} : {A : Type ℓ} → Bool → Option A → Option A
usable no_store cache = if no_store then none else cache

-- The context of a request: its key and whether it says `Cache-Control: no-store`.
pub record Client : Type 0 where
  pub key : Text
  pub no_store : Bool

module _ {W : Type 0} (codec : Codec) (d : Deps W) (client : Client) where
  -- An empty content is not stored; an error of the store is only logged.
  unfoldable pub keep_content : Option (CacheOps W) → Text → Entry → W → W
  keep_content none prompt e w = w
  keep_content (some c) prompt e w = if is_blank e.content then w else c.store prompt e w

  unfoldable pub forward : Text → ChatRequest → Text → Option Text → W → W × Reply
  unfolding keep_content
  forward prompt req backend none w =
      (d.close_body w, refused 502 (error_json (codes "read upstream")))
  forward prompt req backend (some body) w =
      let e : Entry = record {
        model = req.model;
        content = extract_assistant_content (codec.choices body);
        raw = body;
        created_at = 0;
      } in
      (
        d.close_body (keep_content (usable client.no_store d.cache) prompt e w),
        forwarded backend body,
      )

  unfoldable pub relay : Text → ChatRequest → Upstream → W → W × Reply
  unfolding keep_content
  relay prompt req up w =
      let s = stream_proxy codec.delta_of codec.flushes up.reads in
      let e : Entry = record { model = req.model; content = s.content; raw = []; created_at = 0 } in
      (
        d.close_body (keep_content (usable client.no_store d.cache) prompt e w),
        streamed up.backend s,
      )

  unfoldable pub respond : Text → ChatRequest → Waited → W → W × Reply
  unfolding forward relay
  respond prompt req client_gone w = (w, no_client)
  respond prompt req (job_failed message) w =
      (w, refused 502 (error_json (codes "upstream: " ++ message)))
  respond prompt req (responded up) w =
      if req.stream then relay prompt req up w else forward prompt req up.backend up.body w

  unfoldable pub wait : Text → ChatRequest → Job → W → W × Reply
  unfolding respond
  wait prompt req job w = let (w', waited) = d.await job w in respond prompt req waited w'

  -- `ErrQueueFull` is the only error of `Submit`.
  unfoldable pub hand_off : Option (Job → W → W × Bool) → Text → ChatRequest → Job → W → W × Reply
  unfolding wait
  hand_off none prompt req job w = wait prompt req job (d.dispatch_direct job w)
  hand_off (some submit) prompt req job w =
      let (w', accepted) = submit job w in
      if accepted
      then wait prompt req job w'
      else (w', refused 503 (error_json (codes "server busy, try again")))

  unfoldable pub on_found : Found → Text → ChatRequest → Job → W → W × Reply
  unfolding hand_off
  on_found (hit e) prompt req job w = (w, cached req.stream e)
  on_found _ prompt req job w = hand_off d.scheduler prompt req job w

  unfoldable pub look_up : Option (CacheOps W) → Text → ChatRequest → Job → W → W × Reply
  unfolding on_found
  look_up none prompt req job w = hand_off d.scheduler prompt req job w
  look_up (some c) prompt req job w =
      let (w', found) = c.lookup prompt w in on_found found prompt req job w'

  unfoldable pub proceed : ChatRequest → Text → W → W × Reply
  unfolding look_up
  proceed req raw w =
      let job : Job = record { model = req.model; stream = req.stream; body = raw } in
      look_up (usable client.no_store d.cache) (flatten_prompt req.messages) req job w

  -- An error of the limiter lets the request through.
  unfoldable pub on_answer : Answer → ChatRequest → Text → W → W × Reply
  unfolding proceed
  on_answer (decision false) req raw w =
      (d.count_rejection client.key w, refused 429 (error_json (codes "rate limit exceeded")))
  on_answer _ req raw w = proceed req raw w

  unfoldable pub admit : Option (Text → W → W × Answer) → ChatRequest → Text → W → W × Reply
  unfolding on_answer
  admit none req raw w = proceed req raw w
  admit (some allow) req raw w =
      let (w', answer) = allow client.key w in on_answer answer req raw w'

  unfoldable pub on_parsed : Option ChatRequest → Text → W → W × Reply
  unfolding admit
  on_parsed none raw w = (w, refused 400 (error_json (codes "bad json")))
  on_parsed (some req) raw w = admit d.limiter req raw w

  unfoldable pub parse : Option Text → W → W × Reply
  unfolding on_parsed
  parse none w = (w, refused 400 (error_json (codes "body too large or unreadable")))
  parse (some raw) w = on_parsed (codec.unmarshal raw) raw w

  -- `chatHandler`, on the body that could be read, if any.
  unfoldable pub chat : Option Text → W → W × Reply
  unfolding parse
  chat body w =
      let (w', reply) = parse body w in (d.count_request (status_label (status_of reply)) w', reply)
