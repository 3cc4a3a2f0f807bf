-- ===== src/Gateway/SystemExamples.antt =====
-- A gateway over a limiter of two requests a second and a cache in memory, and the theorems on
-- internal/gateway, internal/ratelimit and internal/cache together applied to it.
use velocity_gateway.Common.{
  ℕ, ◌+◌, ◌-◌, ◌*◌, ◌≤◌, ◌≡◌, refl, ◌⊎◌, true, false, Text, codes, [], ◌∷◌, none, some, lookup,
  insert, text_eq,
}
use velocity_gateway.Cache.Vector.{cosine_dot}
use velocity_gateway.Cache.Store.{Entry, MemoryStore, nearest, put}
use velocity_gateway.Cache.Semantic.{Cache, memory_ops, lookup_prompt, store_prompt}
use velocity_gateway.Cache.Contract.{memory_laws, memory_laws-entries}
use velocity_gateway.Cache.Whole.{whole, whole-NoNan, east}
use velocity_gateway.RateLimit.Arith.{exact, billion}
use velocity_gateway.RateLimit.Bucket.{MemoryLimiter, allow, effective}
use velocity_gateway.Gateway.Handler.{
  extract_assistant_content, ChatRequest, responded, Codec, cached,
}
use velocity_gateway.Gateway.Pipeline.{chat, respond}
use velocity_gateway.Gateway.System.{World, Others, Request, serve, serve_all, velo_deps}
use velocity_gateway.Gateway.Server.{Server, new_server, HttpRequest, serve_http}
use velocity_gateway.Gateway.Guarded.{IsAside, IsLetIn, serve_http_guarded}
use velocity_gateway.Gateway.Closing.{counted, bodies, respond-closes}
use velocity_gateway.Gateway.Invariant.{EarnedFor}
use velocity_gateway.Gateway.Served.{IsOwn, serve-cached}
use velocity_gateway.Gateway.Admitted.{let_in_of, let_in_bound}
use velocity_gateway.Gateway.Examples.{up, client}

abbrev plain : ChatRequest
plain = record {
  model = codes "m";
  messages = record { role = codes "user"; content = codes "hello" } ∷ [];
  stream = false;
}

abbrev codec : Codec
codec = record {
  unmarshal = λ raw. some plain;
  choices = λ body. some (body ∷ []);
  delta_of = λ payload. some payload;
  flushes = true;
}

-- No scheduler; every job is answered after 3 nanoseconds.
abbrev others : Others (MemoryLimiter exact) ℕ
others = record {
  limiter = some (allow exact);
  caches = true;
  scheduler = none;
  dispatch_direct = λ job n. n;
  await = λ job n. (n, responded up);
  elapsed = λ job n. 3;
  close_body = λ n. n;
  count_rejection = λ key n. n;
  count_request = λ label n. n + 1;
}

abbrev store : MemoryStore whole
store = record { entries = []; max_size = 2 }

abbrev start : Cache ℕ ℕ (MemoryStore whole)
start = record {
  embed = λ prompt. some east;
  store = store;
  threshold = 2;
  ttl = 100;
  hits = 0;
  misses = 0;
  store_size = 0;
}

abbrev World0 : Type 0
World0 = World (MemoryLimiter exact) ℕ ℕ (MemoryStore whole) ℕ

abbrev world : World0
world = record {
  limiter = record { cfg = record { rps = 2; burst = 2; window_size = 0 }; buckets = [] };
  cache = some start;
  now = 1000;
  calls = [];
  rest = 0;
}

abbrev ask : Request
ask = record { client = client; body = some (codes "{}"); pause = 5 }

let_in_bound_example :
    let_in_of (memory_ops whole) others codec (codes "sk") (ask ∷ ask ∷ ask ∷ []) world * billion
    ≤ (effective world.limiter.cfg).1 * billion
      + ((serve_all (memory_ops whole) others codec (ask ∷ ask ∷ ask ∷ []) world).now - world.now)
        * (effective world.limiter.cfg).0
let_in_bound_example =
    let_in_bound (memory_ops whole) others codec 115 (codes "k") (ask ∷ ask ∷ ask ∷ []) world

abbrev stored : Entry
stored = record { model = codes "m"; content = codes "no"; raw = codes "no"; created_at = 1008 }

hits_second :
    (serve
      (memory_ops whole)
      others
      codec
      ask
      (serve_all (memory_ops whole) others codec (ask ∷ []) world)).1
    ≡ cached false stored
unfolding serve serve_all chat allow effective lookup lookup_prompt nearest
    extract_assistant_content insert text_eq store_prompt put cosine_dot
hits_second = refl

serve-cached_example :
    EarnedFor codec
      (IsOwn whole
        (cosine_dot whole)
        (memory_ops whole)
        (memory_laws whole whole-NoNan)
        others
        start
        (memory_laws-entries whole whole-NoNan store)
        (serve_all (memory_ops whole) others codec (ask ∷ []) world).calls
        ((serve_all (memory_ops whole) others codec (ask ∷ []) world).now + 5))
      ask.body
      stored
serve-cached_example =
    serve-cached whole (cosine_dot whole) (memory_ops whole) (memory_laws whole whole-NoNan) others
      start (memory_laws-entries whole whole-NoNan store) codec (ask ∷ []) ask world false stored
      refl refl hits_second

abbrev server : Server World0
server =
    new_server
      (record {
        addr = codes ":8080";
        metrics_addr = codes ":9090";
        read_timeout = 0;
        write_timeout = 0;
      })
      (record { api_keys = codes "sk" ∷ [] }) (velo_deps (memory_ops whole) others)

abbrev post : HttpRequest
post = record {
  method = codes "POST";
  path = codes "/v1/chat/completions";
  authorization = codes "Bearer sk";
  cache_control = codes "no-store";
  body = some (codes "{}");
}

serve_http_guarded_example :
    IsAside codec server post world (serve_http codec server post world)
    ⊎ ((key : Text) × IsLetIn codec server post world key (serve_http codec server post world))
serve_http_guarded_example = serve_http_guarded codec server post world

respond-closes_example :
    (respond codec
      (counted (velo_deps (memory_ops whole) others))
      client
      (codes "hello")
      plain
      (responded up)
      (world, 4)).0.1
    ≡ bodies (velo_deps (memory_ops whole) others) (responded up) + 4
respond-closes_example =
    respond-closes (velo_deps (memory_ops whole) others) codec client (codes "hello") plain
      (responded up) world 4
