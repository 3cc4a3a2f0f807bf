-- ===== src/Mock/Server.antt =====
-- `handleChat` of cmd/mock-backend/main.go.
use velocity_gateway.Common.{
  ℕ, suc, ◌+◌, Bool, Text, codes, List, [], ◌∷◌, ◌++◌, Option, none, some, length, if◌then◌else◌,
  ◌==◌, join_with,
}
use velocity_gateway.Common.Int64.{Int64, add64, minus_one, le64}
use velocity_gateway.Gateway.Stream.{is_blank}
use velocity_gateway.Gateway.Handler.{ChatMessage}
use velocity_gateway.Gateway.Sse.{
  Head, Chunk, role_chunk, content_chunk, stop_chunk, piece_at, frame, done_frame,
}
use velocity_gateway.Mock.Tokens.{build_tokens, count_prompt_tokens, token_count}

pub record ChatRequest : Type 0 where
  pub model : Text
  pub messages : List ChatMessage
  pub stream : Bool
  pub max_tokens : Int64

pub record ChatUsage : Type 0 where
  pub prompt_tokens : ℕ
  completion_tokens : ℕ
  pub total_tokens : ℕ

-- A whole completion, with the content of its one choice.
pub record ChatResponse : Type 0 where
  pub head : Head
  pub content : Text
  usage : ChatUsage

-- The counters `inFlight` and `maxInFlight`.
pub record Counters : Type 0 where
  pub in_flight : Int64
  max_in_flight : Int64

-- The loop that raises the maximum: what other requests do to it between `Load` and `CompareAndSwap`, a
-- round for each element, and then nothing.
unfoldable raise_max : Int64 → List (Int64 → Int64) → Int64 → Int64
raise_max cur [] m = if le64 cur m then m else cur
raise_max cur (other ∷ others) m =
    let again = raise_max cur others (other m) in
    if le64 cur m then m else if other m == m then cur else again

unfoldable pub begin : List (Int64 → Int64) → Counters → Counters
unfolding raise_max
begin others c =
    let cur = add64 c.in_flight 1 in
    record { in_flight = cur; max_in_flight = raise_max cur others c.max_in_flight }

unfoldable pub end : Counters → Counters
end c = record c { in_flight = add64 c.in_flight minus_one }

unfoldable pub non_stream_response : Head → List Text → ℕ → ChatResponse
non_stream_response h tokens prompt_tokens = record {
  head = h;
  content = join_with 32 tokens;
  usage = record {
    prompt_tokens = prompt_tokens;
    completion_tokens = length tokens;
    total_tokens = prompt_tokens + length tokens;
  };
}

-- The loop over the tokens, from token `i` on, until the client is gone before one; errors of a write
-- are ignored, so all that is sent is what is written.
unfoldable pub send_tokens : (Chunk → Text) → Head → (ℕ → Bool) → ℕ → List Text → Text
unfolding frame
send_tokens encode h gone i [] = frame (encode (stop_chunk h)) ++ done_frame
send_tokens encode h gone i (t ∷ ts) =
    let rest = send_tokens encode h gone (suc i) ts in
    if gone i then [] else frame (encode (content_chunk h (piece_at i t))) ++ rest

unfoldable pub stream_response : (Chunk → Text) → Head → (ℕ → Bool) → List Text → Text
unfolding send_tokens
stream_response encode h gone tokens =
    frame (encode (role_chunk h)) ++ send_tokens encode h gone 0 tokens

-- What is answered: 405, 500, 400, a stream, or a completion.
pub data Answered : Type 0 where
  not_allowed simulated_failure bad_request cannot_stream : Answered
  streamed : Text → Answered
  completed : ChatResponse → Answered

-- The flags, and what a request meets: its method, the dice of the failure rate, its body if it can be
-- decoded, the random words, the client, and the time and number for its ID. The default number of tokens
-- is positive as an int64.
pub record Setting : Type 0 where
  pub encode : Chunk → Text
  pub default_tokens : Int64
  pub flushes : Bool
  pub posted : Bool
  pub fails : Bool
  pub rolls : ℕ → ℕ
  pub gone : ℕ → Bool
  pub id : Text
  pub created : ℕ

abbrev model_of : ChatRequest → Text
model_of req = if is_blank req.model then codes "mock-llm" else req.model

unfoldable pub complete : Setting → ChatRequest → Answered
unfolding token_count build_tokens count_prompt_tokens stream_response non_stream_response
complete s req =
    let h : Head = record { id = s.id; created = s.created; model = model_of req } in
    let tokens = build_tokens s.rolls req.messages (token_count s.default_tokens req.max_tokens) in
    if req.stream
    then (if s.flushes then streamed (stream_response s.encode h s.gone tokens) else cannot_stream)
    else completed (non_stream_response h tokens (count_prompt_tokens req.messages))

unfoldable pub answer_to : Setting → Option ChatRequest → Answered
unfolding complete
answer_to s none = bad_request
answer_to s (some req) = complete s req

-- `handleChat`: other requests act on the counters while it runs.
unfoldable handle_chat :
    Setting
    → Option ChatRequest
    → List (Int64 → Int64)
    → (Counters → Counters)
    → Counters
    → Counters × Answered
unfolding begin end answer_to
handle_chat s decoded others meanwhile c =
    if s.posted
    then (
      end (meanwhile (begin others c)),
      if s.fails then simulated_failure else answer_to s decoded,
    )
    else (c, not_allowed)
