-- ===== src/Gateway/Stages.antt =====
-- Which components a request reaches in `chatHandler` of internal/gateway/handler.go.
use velocity_gateway.Common.{
  ◌≡◌, ◌≢◌, refl, sym, ap, ◌∙◌, true, false, Text, codes, Option, none, some,
}
use velocity_gateway.Cache.Store.{Entry}
use velocity_gateway.Cache.Semantic.{hit}
use velocity_gateway.RateLimit.Bucket.{Answer, decision, err_no_key}
use velocity_gateway.Gateway.Handler.{
  ChatRequest, flatten_prompt, status_label, Job, CacheOps, Deps, Codec, Reply, refused, cached,
  status_of,
}
use velocity_gateway.Gateway.Pipeline.{
  Client, usable, error_json, on_found, look_up, proceed, on_answer, admit, on_parsed, parse, chat,
}
use velocity_gateway.Gateway.Alike.{proceed-same, admit-same}

module _ {W : Type 0} (codec : Codec) (d : Deps W) where
  abbrev finish : W × Reply → W × Reply
  finish p = (d.count_request (status_label (status_of p.1)) p.0, p.1)

  without_cache :
      (client : Client) (o : Option ChatRequest) (raw : Text) (w : W)
      → usable client.no_store none ≡ usable client.no_store d.cache
      → on_parsed codec (record d { cache = none }) client o raw w
        ≡ on_parsed codec d client o raw w
  unfolding on_parsed
  without_cache client none raw w same = refl
  without_cache client (some req) raw w same =
      admit-same codec d client d.limiter none same d.limiter req raw w

  on_answer_passes :
      (client : Client) (answer : Answer) (req : ChatRequest) (raw : Text) (w : W)
      → answer ≢ decision false
      → on_answer codec d client answer req raw w ≡ proceed codec d client req raw w
  unfolding on_answer
  on_answer_passes client (decision true) req raw w h = refl
  on_answer_passes client (decision false) req raw w h = absurd (h refl)
  on_answer_passes client err_no_key req raw w h = refl

  -- A request that says `no-store` is answered as if there were no cache: it is neither looked up there
  -- nor stored, whatever the cache is.
  pub chat-no_store :
      (key : Text) (body : Option Text) (w : W)
      → let client : Client = record { key = key; no_store = true } in
        chat codec d client body w ≡ chat codec (record d { cache = none }) client body w
  unfolding chat parse
  chat-no_store key none w = refl
  chat-no_store key (some raw) w = sym (
      ap finish
        (without_cache (record { key = key; no_store = true }) (codec.unmarshal raw) raw w refl))

  -- A limiter that grants a request whose body can be parsed, or fails, lets it through: the rest of
  -- the handler runs as without a limiter, in the state that the limiter leaves.
  chat_fails_open :
      (client : Client) (allow : Text → W → W × Answer) (raw : Text) (req : ChatRequest) (w : W)
      → d.limiter ≡ some allow
      → codec.unmarshal raw ≡ some req
      → (allow client.key w).1 ≢ decision false
      → chat codec d client (some raw) w
        ≡ chat codec (record d { limiter = none }) client (some raw) (allow client.key w).0
  unfolding chat parse on_parsed admit
  chat_fails_open client allow raw req w limited parsed let_in =
      let open_deps : Deps W = record d { limiter = none } in
      let (w', answer) = allow client.key w in
      ap finish (
        ap (λ o. on_parsed codec d client o raw w) parsed
        ∙ ap (λ o. admit codec d client o req raw w) limited
        ∙ on_answer_passes client answer req raw w' let_in
        ∙ sym (proceed-same codec d client none d.cache refl req raw w')
        ∙ sym (ap (λ o. on_parsed codec open_deps client o raw w') parsed))

  -- A request whose body can be parsed and that the limiter rejects gets 429, and after the limiter it is
  -- only counted: neither the cache nor the scheduler is reached.
  chat_limited :
      (client : Client) (allow : Text → W → W × Answer) (raw : Text) (req : ChatRequest) (w : W)
      → d.limiter ≡ some allow
      → codec.unmarshal raw ≡ some req
      → (allow client.key w).1 ≡ decision false
      → (status_of (chat codec d client (some raw) w).1 ≡ 429)
        × ((chat codec d client (some raw) w).0
            ≡ d.count_request (codes "4xx") (d.count_rejection client.key (allow client.key w).0))
  unfolding chat parse on_parsed admit on_answer status_of status_label
  chat_limited client allow raw req w limited parsed rejected =
      let (w', answer) = allow client.key w in
      let end =
        finish (
          d.count_rejection client.key w',
          refused 429 (error_json (codes "rate limit exceeded")),
        ) in
      let run : chat codec d client (some raw) w ≡ end = ap finish (
        ap (λ o. on_parsed codec d client o raw w) parsed
        ∙ ap (λ o. admit codec d client o req raw w) limited
        ∙ ap (λ a. on_answer codec d client a req raw w') rejected) in
      (ap (λ p. status_of p.1) run, ap (λ p. p.0) run)

  -- A request whose body can be parsed and that the cache answers is not handed on: with no limiter it
  -- gets the cached entry with 200, and after the lookup it is only counted.
  chat_hit :
      (client : Client) (c : CacheOps W) (raw : Text) (req : ChatRequest) (e : Entry) (w : W)
      → d.limiter ≡ none
      → usable client.no_store d.cache ≡ some c
      → codec.unmarshal raw ≡ some req
      → (c.lookup (flatten_prompt req.messages) w).1 ≡ hit e
      → chat codec d client (some raw) w ≡ (
        d.count_request (codes "2xx") (c.lookup (flatten_prompt req.messages) w).0,
        cached req.stream e,
      )
  unfolding chat parse on_parsed admit proceed look_up on_found status_of status_label
  chat_hit client c raw req e w free held parsed found =
      let job : Job = record { model = req.model; stream = req.stream; body = raw } in
      let prompt = flatten_prompt req.messages in
      ap finish (
        ap (λ o. on_parsed codec d client o raw w) parsed
        ∙ ap (λ o. admit codec d client o req raw w) free
        ∙ ap (λ o. look_up codec d client o prompt req job w) held
        ∙ ap (λ f. on_found codec d client f prompt req job (c.lookup prompt w).0) found)
