-- ===== src/Gateway/Handler.antt =====
-- `chatHandler` of internal/gateway/handler.go, over the components it calls. All that they change is
-- in a state `W` of theirs.
use velocity_gateway.Common.{
  ℕ, Bool, Text, codes, List, [], ◌∷◌, ◌++◌, Option, none, some, if◌then◌else◌, leb,
}
use velocity_gateway.Cache.Store.{Entry}
use velocity_gateway.Cache.Semantic.{Found}
use velocity_gateway.RateLimit.Bucket.{Answer}
use velocity_gateway.Gateway.Text.{trim_space}
use velocity_gateway.Gateway.Stream.{Read, Streamed}

pub record ChatMessage : Type 0 where
  pub role : Text
  pub content : Text

-- What the handler reads of a request.
pub record ChatRequest : Type 0 where
  pub model : Text
  pub messages : List ChatMessage
  pub stream : Bool

unfoldable write_messages : List ChatMessage → Text
write_messages [] = []
write_messages (m ∷ ms) = m.role ++ (codes ": " ++ (m.content ++ (codes "\n" ++ write_messages ms)))

unfoldable pub flatten_prompt : List ChatMessage → Text
unfolding write_messages
flatten_prompt ms = trim_space (write_messages ms)

-- `extractAssistantContent`, by the contents of the choices that the JSON decoder finds.
unfoldable pub extract_assistant_content : Option (List Text) → Text
extract_assistant_content none = []
extract_assistant_content (some []) = []
extract_assistant_content (some (c ∷ cs)) = c

unfoldable pub status_label : ℕ → Text
status_label code =
    if leb 500 code
    then codes "5xx"
    else if leb 400 code
    then codes "4xx"
    else if leb 300 code
    then codes "3xx"
    else if leb 200 code
    then codes "2xx"
    else codes "1xx"

pub record Job : Type 0 where
  pub model : Text
  pub stream : Bool
  pub body : Text

-- A response of an upstream: its status, the lines of its stream, and its whole body, if it can be read.
pub record Upstream : Type 0 where
  pub status : ℕ
  pub backend : Text
  pub reads : List Read
  pub body : Option Text

-- How the wait for the job ends.
pub data Waited : Type 0 where
  client_gone : Waited
  job_failed : Text → Waited
  responded : Upstream → Waited

pub record CacheOps (W : Type 0) : Type 0 where
  pub lookup : Text → W → W × Found
  pub store : Text → Entry → W → W

-- `Deps`, where what may be nil is an option, with the metrics and the wait. `dispatch` is `Submit`,
-- which may refuse, or the goroutine with `dispatchDirect`.
pub record Deps (W : Type 0) : Type 0 where
  pub limiter : Option (Text → W → W × Answer)
  pub cache : Option (CacheOps W)
  pub scheduler : Option (Job → W → W × Bool)
  pub dispatch_direct : Job → W → W
  pub await : Job → W → W × Waited
  pub close_body : W → W
  pub count_rejection : Text → W → W
  pub count_request : Text → W → W

-- The JSON decoders, and whether the writer can flush.
pub record Codec : Type 0 where
  pub unmarshal : Text → Option ChatRequest
  pub choices : Text → Option (List Text)
  pub delta_of : Text → Option Text
  pub flushes : Bool

-- What is answered: an error, nothing to a client that is gone, a cached entry, whole or as a stream, a
-- stream, or a body.
pub data Reply : Type 0 where
  refused : ℕ → Text → Reply
  no_client : Reply
  cached : Bool → Entry → Reply
  streamed : Text → Streamed → Reply
  forwarded : Text → Text → Reply

-- The status that is written: what is not refused is copied without a `WriteHeader`, which makes it a 200
-- whatever the upstream's status was.
unfoldable pub status_of : Reply → ℕ
status_of (refused status message) = status
status_of no_client = 499
status_of _ = 200
