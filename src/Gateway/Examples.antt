-- ===== src/Gateway/Examples.antt =====
-- A gateway whose components log their calls, and the theorems on internal/gateway applied to it.
use velocity_gateway.Common.{
  ◌≡◌, refl, true, false, Text, codes, text_eq, mem_text, List, [], ◌∷◌, ◌++◌, Option, none, some,
}
use velocity_gateway.Cache.Store.{Entry}
use velocity_gateway.Cache.Semantic.{hit}
use velocity_gateway.RateLimit.Bucket.{Answer}
use velocity_gateway.Gateway.Text.{trim_space, is_space, trim_left, trim_right}
use velocity_gateway.Gateway.Auth.{authorized, prefix, api_key_auth, is_open, api_key_auth_iff}
use velocity_gateway.Gateway.Stream.{Read, more, broken}
use velocity_gateway.Gateway.Handler.{ChatRequest, Upstream, responded, CacheOps, Deps, Codec}
use velocity_gateway.Gateway.Pipeline.{Client, chat}
use velocity_gateway.Gateway.Stages.{chat-no_store}

abbrev Log : Type 0
Log = List Text

abbrev hello : ChatRequest
hello = record {
  model = codes "m";
  messages = record { role = codes "user"; content = codes "hello" } ∷ [];
  stream = true;
}

-- A decoder that takes every body for the request, and a chunk for its text.
abbrev codec : Codec
codec = record {
  unmarshal = λ raw. some hello;
  choices = λ body. some (body ∷ []);
  delta_of = λ payload. some payload;
  flushes = true;
}

abbrev line : Text → Read
line text = record { cancelled = false; line = text; after = more; written = true }

abbrev cut : Read
cut = record { cancelled = false; line = codes "data: wor"; after = broken; written = true }

abbrev pub up : Upstream
up = record {
  status = 404;
  backend = codes "mock-1";
  reads = line (codes "data: hi\n") ∷ cut ∷ [];
  body = some (codes "no");
}

abbrev greeting : Entry
greeting = record { model = codes "m"; content = codes "hi"; raw = []; created_at = 4 }

abbrev cache : CacheOps Log
cache = record {
  lookup = λ prompt log. ((codes "lookup" ∷ log), hit greeting);
  store = λ prompt e log. codes "store" ∷ log;
}

abbrev parts : Option (Text → Log → Log × Answer) → Deps Log
parts limiter = record {
  limiter = limiter;
  cache = some cache;
  scheduler = none;
  dispatch_direct = λ job log. codes "dispatch" ∷ log;
  await = λ job log. (log, responded up);
  close_body = λ log. codes "close" ∷ log;
  count_rejection = λ key log. codes "rejected" ∷ log;
  count_request = λ status log. codes "request" ∷ log;
}

abbrev answers : Answer → Text → Log → Log × Answer
answers a key log = (codes "allow" ∷ log, a)

abbrev pub client : Client
client = record { key = codes "sk"; no_store = false }

api_key_auth_iff_example :
    api_key_auth (codes "sk" ∷ []) (codes "/v1/chat/completions") (prefix ++ codes " sk")
    ≡ authorized (codes "sk")
api_key_auth_iff_example =
    (api_key_auth_iff (codes "sk" ∷ []) (codes "/v1/chat/completions") (prefix ++ codes " sk")
        (codes "sk")).1
      (
        unfold is_open text_eq in refl,
        (
          codes " sk",
          refl,
          unfold trim_space is_space trim_left trim_right in refl,
          unfold mem_text text_eq in refl,
        ),
      )

chat-no_store_example :
    chat codec (parts none) (record { key = codes "sk"; no_store = true }) (some []) []
    ≡ chat codec
        (record (parts none) { cache = none })
        (record { key = codes "sk"; no_store = true })
        (some [])
        []
chat-no_store_example = chat-no_store codec (parts none) (codes "sk") (some []) []
