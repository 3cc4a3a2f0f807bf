-- ===== src/Gateway/Server.antt =====
-- internal/gateway/server.go: the routes behind the middleware of auth.go. The matching of methods and
-- paths is that of the router library.
use velocity_gateway.Common.{
  Bool, true, false, Text, codes, text_eq, [], ◌∷◌, Option, none, some, if◌then◌else◌,
}
use velocity_gateway.Config.Types as Config
use velocity_gateway.Gateway.Text.{strip_prefix}
use velocity_gateway.Gateway.Auth.{
  Access, anonymous, missing_token, invalid_key, authorized, api_key_auth, api_key_of,
}
use velocity_gateway.Gateway.Handler.{Deps, Codec, Reply}
use velocity_gateway.Gateway.Pipeline.{Client, chat}

pub record HttpRequest : Type 0 where
  pub method : Text
  pub path : Text
  pub authorization : Text
  pub cache_control : Text
  pub body : Option Text

-- What is answered: 401 by the middleware, 404 or 405 by the router, or by a handler.
pub data Page : Type 0 where
  unauthorized not_found wrong_method : Page
  health metrics_page : Page
  completion : Reply → Page

-- `NewServer`; the HTTP server itself is set up in `ListenAndServe`.
pub record Server (W : Type 0) : Type 0 where
  pub cfg : Config.Server
  pub auth : Config.Auth
  pub deps : Deps W

abbrev pub new_server : {W : Type 0} → Config.Server → Config.Auth → Deps W → Server W
new_server cfg auth deps = record { cfg = cfg; auth = auth; deps = deps }

-- `strings.Contains`
unfoldable contains : Text → Text → Bool
contains part [] = elim (strip_prefix part []) [ none ↦ false | some rest ↦ true ]
contains part (c ∷ cs) = elim (strip_prefix part (c ∷ cs)) [
  | none ↦ contains part cs
  | some rest ↦ true
]

-- The context of a request that was let in.
unfoldable pub client_of : Access → HttpRequest → Client
unfolding contains api_key_of
client_of access r = record {
  key = api_key_of access;
  no_store = contains (codes "no-store") r.cache_control;
}

pub data Route : Type 0 where
  to_health to_metrics to_chat unknown : Route

-- The paths of `Routes`, with their methods.
abbrev pub route_of : Text → Route
route_of path =
    if text_eq path (codes "/health")
    then to_health
    else if text_eq path (codes "/metrics")
    then to_metrics
    else if text_eq path (codes "/v1/chat/completions")
    then to_chat
    else unknown

module _ {W : Type 0} (codec : Codec) (s : Server W) where
  abbrev pub to_route : Route → Access → HttpRequest → W → W × Page
  to_route to_health access r w =
      (w, if text_eq r.method (codes "GET") then health else wrong_method)
  to_route to_metrics access r w =
      (w, if text_eq r.method (codes "GET") then metrics_page else wrong_method)
  to_route to_chat access r w =
      if text_eq r.method (codes "POST")
      then (let (w', reply) = chat codec s.deps (client_of access r) r.body w in
          (w', completion reply))
      else (w, wrong_method)
  to_route unknown access r w = (w, not_found)

  unfoldable pub after_auth : Access → HttpRequest → W → W × Page
  unfolding client_of chat
  after_auth missing_token r w = (w, unauthorized)
  after_auth invalid_key r w = (w, unauthorized)
  after_auth anonymous r w = to_route (route_of r.path) anonymous r w
  after_auth (authorized key) r w = to_route (route_of r.path) (authorized key) r w

  -- A request through `Routes`.
  unfoldable pub serve_http : HttpRequest → W → W × Page
  unfolding after_auth api_key_auth
  serve_http r w = after_auth (api_key_auth s.auth.api_keys r.path r.authorization) r w
