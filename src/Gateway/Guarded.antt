-- ===== src/Gateway/Guarded.antt =====
-- What stands between a request and the components, in internal/gateway/server.go.
use velocity_gateway.Common.{
  ◌≡◌, refl, sym, ap, ◌∙◌, subst, Bool, true, false, Text, codes, text_eq, List, Option, none, some,
  if_cases, mem_text, ◌⊎◌, inl, inr, if◌then◌else◌, Bool-cases, arith,
}
use velocity_gateway.Gateway.Auth.{
  Access, anonymous, missing_token, invalid_key, authorized, api_key_auth, check_key,
  api_key_auth_iff, Brings, is_open, prefix,
}
use velocity_gateway.Gateway.Text.{strip_prefix, trim_space}
use velocity_gateway.Gateway.Handler.{Codec}
use velocity_gateway.Gateway.Pipeline.{chat}
use velocity_gateway.Gateway.Server.{
  HttpRequest, Page, wrong_method, health, metrics_page, completion, Server, client_of, Route,
  to_health, to_metrics, to_chat, unknown, route_of, to_route, after_auth, serve_http,
}

abbrev IsCompletion : Page → Type 0
IsCompletion (completion reply) = Unit {0}
IsCompletion _ = ⊥

module _ {W : Type 0} (codec : Codec) (s : Server W) (r : HttpRequest) (w : W) where
  -- The handler of completions has run, for a key.
  abbrev ran : Access → W × Page
  ran access =
      let (w', reply) = chat codec s.deps (client_of access r) r.body w in (w', completion reply)

  -- A request that was let in under a key that is allowed, and handled.
  pub record IsLetIn (key : Text) (p : W × Page) : Type 0 where
    pub brings : Brings s.auth.api_keys r.path r.authorization key
    at_path : text_eq r.path (codes "/v1/chat/completions") ≡ true
    pub posted : text_eq r.method (codes "POST") ≡ true
    handled : p ≡ (
        let (w', reply) = chat codec s.deps (client_of (authorized key) r) r.body w in
        (w', completion reply))

  -- Nothing was touched.
  abbrev pub IsAside : W × Page → Type 0
  IsAside p = (p.0 ≡ w) × ¬ IsCompletion p.1

  IsAside-if :
      (b : Bool) (x y : Page)
      → ¬ IsCompletion x
      → ¬ IsCompletion y
      → IsAside (w, if b then x else y)
  IsAside-if true x y h k = (refl, h)
  IsAside-if false x y h k = (refl, k)

  route_lem :
      (route : Route) (access : Access)
      → route_of r.path ≡ route
      → IsAside (to_route codec s route access r w)
        ⊎ ((text_eq r.path (codes "/v1/chat/completions") ≡ true)
            × (text_eq r.method (codes "POST") ≡ true)
            × (to_route codec s route access r w ≡ ran access))
  route_lem to_health access h =
      inl (IsAside-if (text_eq r.method (codes "GET")) health wrong_method (λ x. x) (λ x. x))
  route_lem to_metrics access h =
      inl (IsAside-if (text_eq r.method (codes "GET")) metrics_page wrong_method (λ x. x) (λ x. x))
  route_lem unknown access h = inl (refl, λ x. x)
  route_lem to_chat access h = elim (Bool-cases (text_eq r.method (codes "POST"))) [
    | inl posted ↦
        inr (ground arith, posted, ap (λ b. if b then ran access else (w, wrong_method)) posted)
    | inr other ↦ inl (
        subst IsAside (sym (ap (λ b. if b then ran access else (w, wrong_method)) other))
          (refl, λ x. x))
  ]

  open_route :
      is_open r.path ≡ true → (route_of r.path ≡ to_health) ⊎ (route_of r.path ≡ to_metrics)
  unfolding is_open
  open_route h = elim (Bool-cases (text_eq r.path (codes "/health"))) [
    | inl e ↦ inl (ground (arith, e))
    | inr n ↦ inr (ground (arith, h, n))
  ]

  open-IsAside :
      (route : Route)
      → (route ≡ to_health) ⊎ (route ≡ to_metrics)
      → IsAside (to_route codec s route anonymous r w)
  open-IsAside to_health e =
      IsAside-if (text_eq r.method (codes "GET")) health wrong_method (λ x. x) (λ x. x)
  open-IsAside to_metrics e =
      IsAside-if (text_eq r.method (codes "GET")) metrics_page wrong_method (λ x. x) (λ x. x)
  open-IsAside unknown e = (refl, λ x. x)
  open-IsAside to_chat (inl e) = cc
  open-IsAside to_chat (inr e) = cc

  checked : (allowed : List Text) (o : Option Text) → ¬ (check_key allowed o ≡ anonymous)
  unfolding check_key
  checked allowed none h = cc
  checked allowed (some token) h =
      if_cases (λ (a : Access). ¬ (a ≡ anonymous)) (mem_text (trim_space token) allowed) (λ _ k. cc)
        (λ _ k. cc) h

  anonymous_open :
      api_key_auth s.auth.api_keys r.path r.authorization ≡ anonymous → is_open r.path ≡ true
  unfolding api_key_auth
  anonymous_open h = elim (Bool-cases (is_open r.path)) [
    | inl open_path ↦ open_path
    | inr guarded ↦ absurd (
        checked s.auth.api_keys (strip_prefix prefix r.authorization) (
          sym (
            ap
              (λ b.
                if b
                then anonymous
                else check_key s.auth.api_keys (strip_prefix prefix r.authorization))
              guarded)
          ∙ h))
  ]

  by_access :
      (access : Access)
      → api_key_auth s.auth.api_keys r.path r.authorization ≡ access
      → IsAside (after_auth codec s access r w)
        ⊎ ((key : Text) × IsLetIn key (after_auth codec s access r w))
  unfolding after_auth
  by_access missing_token h = inl (refl, λ x. x)
  by_access invalid_key h = inl (refl, λ x. x)
  by_access anonymous h = inl (open-IsAside (route_of r.path) (open_route (anonymous_open h)))
  by_access (authorized key) h = elim (route_lem (route_of r.path) (authorized key) refl) [
    | inl aside ↦ inl aside
    | inr (at_path, posted, handled) ↦ inr (
      key,
      record {
        brings = (api_key_auth_iff s.auth.api_keys r.path r.authorization key).0 h;
        at_path = at_path;
        posted = posted;
        handled = handled;
      },
    )
  ]

  -- A request either leaves the state of every component as it was and is not answered by the handler of
  -- completions, or it is a POST to /v1/chat/completions under a key that is allowed, and that handler
  -- runs with this key. So without a valid key no limiter, cache or scheduler is reached.
  pub serve_http_guarded :
      IsAside (serve_http codec s r w) ⊎ ((key : Text) × IsLetIn key (serve_http codec s r w))
  unfolding serve_http
  serve_http_guarded = by_access (api_key_auth s.auth.api_keys r.path r.authorization) refl
