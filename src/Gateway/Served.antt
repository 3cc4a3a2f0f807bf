-- ===== src/Gateway/Served.antt =====
-- Where a cached answer of `chatHandler` of internal/gateway/handler.go comes from.
use velocity_gateway.Common.{
  ℕ, ◌+◌, ◌≡◌, refl, sym, ap, ◌∙◌, subst, Bool, false, Text, List, [], ◌∷◌, Option, none, some, All,
  All-Among, of_some,
}
use velocity_gateway.Cache.Vector.{Floats}
use velocity_gateway.Cache.Store.{Entry}
use velocity_gateway.Cache.Semantic.{StoreOps, Cache, hit, lookup_prompt, store_prompt}
use velocity_gateway.Cache.Contract.{StoreLaws}
use velocity_gateway.Cache.Accounted.{Event, stored, looked_up, run, after}
use velocity_gateway.Cache.Provenance.{IsEarned, run-hit}
use velocity_gateway.RateLimit.Bucket.{Answer}
use velocity_gateway.Gateway.Stream.{is_blank}
use velocity_gateway.Gateway.Handler.{Job, Codec, cached}
use velocity_gateway.Gateway.Invariant.{Preserves, Owes, EarnedFor, chat-keeps}
use velocity_gateway.Gateway.System.{
  Others, Request, Velo, velo_deps, serve, serve_all, submit_to, cache_ops, ask_limiter, of_cache,
}

-- What was stored was not blank.
abbrev IsFull : Event → Type 0
IsFull (looked_up prompt now) = Unit {0}
IsFull (stored prompt e now) = is_blank e.content ≡ false

module _ {L R : Type 0} (m : Floats) (similarity : List m.F32 → List m.F32 → m.F64) {S : Type 0}
    (ops : StoreOps m.F32 m.F64 S) (laws : StoreLaws m similarity ops) (others : Others L R)
    (start : Cache m.F32 m.F64 S) (empty : laws.entries start.store ≡ []) where
  abbrev Gate : Type 0
  Gate = Velo {L = L} {R = R} ops others

  -- The cache is what its calls have made of the one at the start.
  record IsRun (w : Gate) : Type 0 where
    full : All IsFull w.calls
    reached : w.cache ≡ run ops w.calls (some start)

  -- The same, and no call of the cache since some calls, at a time.
  record IsRunTo (calls : List Event) (now : ℕ) (w : Gate) : Type 0 where
    runs : IsRun w
    same_calls : w.calls ≡ calls
    same_now : w.now ≡ now

  -- After some calls of the cache, at a time: the entry is that of an earlier `Store` among them, near and
  -- fresh, and not blank.
  pub record IsOwn (calls : List Event) (now : ℕ) (prompt : Text) (e : Entry) : Type 0 where
    pub earned : IsEarned m similarity ops laws start calls prompt now e
    pub not_blank : is_blank e.content ≡ false

  looked : (prompt : Text) (w : Gate) → IsRun w → IsRun ((cache_ops ops others).lookup prompt w).0
  unfolding run after
  looked prompt w h = record {
    full = (tt, h.full);
    reached = ap (λ c. (lookup_prompt ops prompt w.now c).0) h.reached;
  }

  stored_into :
      (prompt : Text) (e : Entry) (w : Gate)
      → is_blank e.content ≡ false
      → IsRun w
      → IsRun ((cache_ops ops others).store prompt e w)
  unfolding run after
  stored_into prompt e w filled h = record {
    full = (filled, h.full);
    reached = ap (λ c. (store_prompt ops prompt e w.now c).0) h.reached;
  }

  untouched : (w w' : Gate) → IsRun w → w'.cache ≡ w.cache → w'.calls ≡ w.calls → IsRun w'
  untouched w w' h e k = record {
    full = subst (All IsFull) (sym k) h.full;
    reached = e ∙ h.reached ∙ ap (λ c. run ops c (some start)) (sym k);
  }

  hit-IsOwn :
      (prompt : Text) (e : Entry) (w : Gate)
      → IsRun w
      → (lookup_prompt ops prompt w.now w.cache).1 ≡ hit e
      → IsOwn w.calls w.now prompt e
  hit-IsOwn prompt e w h k =
      let earned =
        run-hit m similarity ops laws start w.calls prompt w.now e empty
          (sym (ap (λ c. (lookup_prompt ops prompt w.now c).1) h.reached) ∙ k) in
      let from = earned.origin in
      record {
        earned = earned;
        not_blank =
            ap is_blank (ap (λ (x : Entry). x.content) earned.answers.same ∙ from.content)
            ∙ All-Among IsFull _ w.calls h.full from.happened;
      }

  preserves :
      (calls : List Event) (now : ℕ)
      → Preserves (velo_deps ops others) (IsRunTo calls now) IsRun (IsOwn calls now)
  preserves calls now = record {
    on_first = λ w p. p.runs;
    on_lookup = λ c h prompt w p.
        of_cache ops others (λ d. IsRun (d.lookup prompt w).0) others.caches c h
          (looked prompt w p.runs);
    on_hit = λ c h prompt e w p k.
        of_cache ops others (λ d. (d.lookup prompt w).1 ≡ hit e → IsOwn calls now prompt e)
          others.caches c h
          (λ k'.
            subst (λ t. IsOwn calls t prompt e) p.same_now
              (subst (λ x. IsOwn x w.now prompt e) p.same_calls (hit-IsOwn prompt e w p.runs k')))
          k;
    on_store = λ c h prompt e w filled p.
        of_cache ops others (λ d. IsRun (d.store prompt e w)) others.caches c h
          (stored_into prompt e w filled p);
    on_submit = λ submit h job w p. submitted others.scheduler submit job w h p;
    on_direct = λ job w p. untouched w _ p refl refl;
    on_await = λ job w p. untouched w _ p refl refl;
    on_close = λ w p. untouched w _ p refl refl;
    on_rejection = λ key w p. untouched w _ p refl refl;
    on_request = λ label w p. untouched w _ p refl refl;
  }
    where
      submitted :
          (o : Option (Job → R → R × Bool)) (submit : Job → Gate → Gate × Bool) (job : Job)
          (w : Gate)
          → submit_to ops others o ≡ some submit
          → IsRun w
          → IsRun (submit job w).0
      submitted none submit job w h p = cc
      submitted (some s) submit job w h p =
          of_some (λ (t : Job → Gate → Gate × Bool). IsRun (t job w).0) h
            (untouched w _ p refl refl)

  limiter_keeps :
      (calls : List Event) (now : ℕ) (o : Option (Text → ℕ → L → L × Answer))
      (allow : Text → Gate → Gate × Answer)
      → ask_limiter ops others o ≡ some allow
      → (key : Text) (w : Gate) → IsRunTo calls now w
      → IsRunTo calls now (allow key w).0
  limiter_keeps calls now none allow h key w p = cc
  limiter_keeps calls now (some ask) allow h key w p =
      of_some (λ (t : Text → Gate → Gate × Answer). IsRunTo calls now (t key w).0) h
        (record {
          runs = untouched w _ p.runs refl refl;
          same_calls = p.same_calls;
          same_now = p.same_now;
        })

  serve-IsRun :
      (codec : Codec) (r : Request) (w : Gate)
      → IsRun w
      → let p = serve ops others codec r w in
        IsRun p.0 × Owes (EarnedFor codec (IsOwn w.calls (w.now + r.pause)) r.body) p.1
  unfolding serve
  serve-IsRun codec r w p =
      let calls = w.calls in
      let now = w.now + r.pause in
      chat-keeps codec (velo_deps ops others) (IsRunTo calls now) IsRun (IsOwn calls now)
        (preserves calls now) r.client (limiter_keeps calls now others.limiter) r.body _
        (record { runs = untouched w _ p refl refl; same_calls = refl; same_now = refl })

  serve_all-IsRun :
      (codec : Codec) (rs : List Request) (w : Gate)
      → IsRun w
      → IsRun (serve_all ops others codec rs w)
  unfolding serve_all
  serve_all-IsRun codec [] w p = p
  serve_all-IsRun codec (r ∷ rs) w p =
      serve_all-IsRun codec rs (serve ops others codec r w).0 (serve-IsRun codec r w p).0

  -- When the gateway, with a cache whose store was empty at the start and keeps its contract, and which had
  -- no calls, has answered any requests one after another and answers the next with a cached entry, then
  -- the body of that request decodes, and the content of the entry is not blank and is what was stored by
  -- a `Store` among the calls of the cache that those requests led to, under a prompt that is near
  -- enough to the one of this request, and whose time to live has not passed when this request arrives.
  pub serve-cached :
      (codec : Codec) (rs : List Request) (r : Request) (w : Gate) (stream : Bool) (e : Entry)
      → w.cache ≡ some start
      → w.calls ≡ []
      → (serve ops others codec r (serve_all ops others codec rs w)).1 ≡ cached stream e
      → let before = serve_all ops others codec rs w in
        EarnedFor codec (IsOwn before.calls (before.now + r.pause)) r.body e
  serve-cached codec rs r w stream e fresh none_yet answer =
      let first : IsRun w = record {
        full = subst (All IsFull) (sym none_yet) tt;
        reached = fresh ∙ sym (ap (λ c. run ops c (some start)) none_yet ∙ unfold run in refl);
      } in
      let before = serve_all ops others codec rs w in
      subst (Owes (EarnedFor codec (IsOwn before.calls (before.now + r.pause)) r.body)) answer
        (serve-IsRun codec r before (serve_all-IsRun codec rs w first)).1
