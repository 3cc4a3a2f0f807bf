-- ===== src/Gateway/Sse.antt =====
-- Server-sent events as internal/gateway/stream.go and cmd/mock-backend/main.go write them, and the
-- lines that a reader of them gets.
use velocity_gateway.Common.{
  ℕ, true, false, Text, codes, List, [], ◌∷◌, ◌++◌, Option, some, if◌then◌else◌, ◌==◌, ◌≡◌, All,
  map,
}
use velocity_gateway.Gateway.Stream.{Read, more, is_blank}

-- A chunk of a completion: its head, and the delta and the finish reason of its one choice. What is
-- empty is left out of the JSON.
pub record Head : Type 0 where
  pub id : Text
  pub created : ℕ
  pub model : Text

pub record Chunk : Type 0 where
  pub head : Head
  pub role : Text
  pub content : Text
  finish_reason : Text

abbrev pub role_chunk : Head → Chunk
role_chunk h = record { head = h; role = codes "assistant"; content = []; finish_reason = [] }

abbrev pub content_chunk : Head → Text → Chunk
content_chunk h piece = record { head = h; role = []; content = piece; finish_reason = [] }

abbrev pub stop_chunk : Head → Chunk
stop_chunk h = record { head = h; role = []; content = []; finish_reason = codes "stop" }

-- `piece := tok; if i > 0 { piece = " " + tok }`
abbrev pub piece_at : ℕ → Text → Text
piece_at i tok = if i == 0 then tok else 32 ∷ tok

-- `"data: %s\n\n"`
unfoldable pub frame : Text → Text
frame payload = codes "data: " ++ (payload ++ codes "\n\n")

abbrev pub done_frame : Text
done_frame = codes "data: [DONE]\n\n"

-- The lines that `ReadBytes('\n')` returns, each with its newline, after a line that has begun.
unfoldable pub read_lines : Text → Text → List Text
read_lines line [] = if is_blank line then [] else line ∷ []
read_lines line (c ∷ cs) =
    let next = read_lines [] cs in
    let longer = read_lines (line ++ (c ∷ [])) cs in
    if c == 10 then (line ++ (c ∷ [])) ∷ next else longer

abbrev pub read_of : Text → Read
read_of line = record { cancelled = false; line = line; after = more; written = true }

-- The rounds of a reader that nothing disturbs.
abbrev pub reads_of : Text → List Read
reads_of body = map read_of (read_lines [] body)

-- What encoding a chunk as JSON and decoding it have to do with each other: it is an object on one line,
-- from which the decoder gets the content of the delta.
pub record Encodes (encode : Chunk → Text) (delta_of : Text → Option Text) : Type 0 where
  pub is_object : (c : Chunk) → (fields : Text) × (encode c ≡ 123 ∷ (fields ++ (125 ∷ [])))
  pub one_line : (c : Chunk) → All (λ x. (x == 10) ≡ false) (encode c)
  pub read_back : (c : Chunk) → delta_of (encode c) ≡ some c.content
