-- ===== src/Gateway/Stream.antt =====
-- `streamProxy` of internal/gateway/stream.go.
use velocity_gateway.Common.{
  Bool, true, false, Text, codes, text_eq, List, [], ◌∷◌, ◌++◌, Option, none, some, if◌then◌else◌,
}
use velocity_gateway.Gateway.Text.{trim_space, strip_prefix}

-- What follows a line that `ReadBytes` has returned: more lines, the end, or an error.
pub data After : Type 0 where
  more eof broken : After

-- One round of the loop: whether the client is gone before it, the line that is read, what follows it,
-- and whether the line can be written.
pub record Read : Type 0 where
  pub cancelled : Bool
  pub line : Text
  pub after : After
  pub written : Bool

-- The assembled content, the bytes that were written, and whether the stream came to its end.
pub record Streamed : Type 0 where
  pub content : Text
  pub sent : Text
  pub complete : Bool

abbrev pub is_done : Text → Bool
is_done payload = text_eq payload (codes "[DONE]")

-- The text of a chunk; `delta_of` is the JSON decoder, with the content of the first choice, if any.
unfoldable pub delta : (Text → Option Text) → Option Text → Text
delta delta_of none = []
delta delta_of (some rest) =
    let payload = trim_space rest in
    if is_done payload then [] else elim (delta_of payload) [ none ↦ [] | some text ↦ text ]

unfoldable pub line_text : (Text → Option Text) → Text → Text
unfolding delta
line_text delta_of line = delta delta_of (strip_prefix (codes "data: ") line)

abbrev pub is_blank : Text → Bool
is_blank [] = true
is_blank (c ∷ cs) = false

-- What follows a round: the next ones, or the end, with what there is then.
unfoldable pub go_on : After → Streamed → Text → Text → Streamed
go_on more rest content sent = rest
go_on eof rest content sent = record { content = content; sent = sent; complete = true }
go_on broken rest content sent = record { content = content; sent = sent; complete = false }

module _ (delta_of : Text → Option Text) where
  -- The loop, with what was assembled and written so far. The end of the list stands for the read of
  -- nothing with `io.EOF`.
  unfoldable pub copy : List Read → Text → Text → Streamed
  unfolding line_text go_on
  copy [] content sent = record { content = content; sent = sent; complete = true }
  copy (r ∷ rs) content sent =
      let stopped : Streamed = record { content = content; sent = sent; complete = false } in
      let content' = content ++ line_text delta_of r.line in
      let sent' = sent ++ r.line in
      let rest = copy rs content' sent' in
      if r.cancelled
      then stopped
      else if is_blank r.line
      then go_on r.after (copy rs content sent) content sent
      else if r.written
      then go_on r.after rest content' sent'
      else stopped

  -- Without a flusher nothing is read.
  unfoldable pub stream_proxy : Bool → List Read → Streamed
  unfolding copy
  stream_proxy true reads = copy reads [] []
  stream_proxy false reads = record { content = []; sent = []; complete = false }
