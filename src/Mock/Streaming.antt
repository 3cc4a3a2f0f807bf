-- ===== src/Mock/Streaming.antt =====
-- A stream of cmd/mock-backend, as internal/gateway relays it.
use velocity_gateway.Common.{
  ℕ, suc, ◌≡◌, sym, ap, ◌∙◌, subst, Bool, true, false, Text, List, [], ◌∷◌, ◌++◌, Option, join_with,
}
use mathlib.Core.List.{append-nil, append_assoc}
use velocity_gateway.Gateway.Stream.{stream_proxy}
use velocity_gateway.Gateway.Sse.{
  Head, Chunk, role_chunk, content_chunk, stop_chunk, piece_at, frame, done_frame, reads_of,
  Encodes,
}
use velocity_gateway.Gateway.Relay.{joined}
use velocity_gateway.Gateway.ReadBack.{frames, stream_proxy-frames}
use velocity_gateway.Gateway.Replayed.{word_chunks, joined-word_chunks}
use velocity_gateway.Mock.Server.{send_tokens, stream_response, non_stream_response}

module _ (encode : Chunk → Text) (h : Head) (gone : ℕ → Bool)
    (stays : (i : ℕ) → gone i ≡ false) where
  send_tokens_lem :
      (i : ℕ) (ts : List Text)
      → send_tokens encode h gone i ts ≡ frames encode (word_chunks h i ts) ++ done_frame
  unfolding send_tokens frames joined word_chunks
  send_tokens_lem i [] =
      ap (λ x. x ++ done_frame) (sym (append-nil (frame (encode (stop_chunk h)))))
  send_tokens_lem i (t ∷ ts) =
      let first = frame (encode (content_chunk h (piece_at i t))) in
      rw (stays i) (
        ap (λ x. first ++ x) (send_tokens_lem (suc i) ts)
        ∙ sym (append_assoc first (frames encode (word_chunks h (suc i) ts)) done_frame))

  pub stream_response_lem :
      (ts : List Text)
      → stream_response encode h gone ts
        ≡ frames encode (role_chunk h ∷ word_chunks h 0 ts) ++ done_frame
  unfolding stream_response frames joined
  stream_response_lem ts =
      let first = frame (encode (role_chunk h)) in
      ap (λ x. first ++ x) (send_tokens_lem 0 ts)
      ∙ sym (append_assoc first (frames encode (word_chunks h 0 ts)) done_frame)

-- What the gateway assembles of a stream of the mock backend is the content of the completion that the
-- mock backend gives for the same tokens when it does not stream, and the client gets the stream
-- unchanged and whole, if the clients of both stay.
pub stream_proxy-stream_response :
    (encode : Chunk → Text) (delta_of : Text → Option Text) (h : Head) (gone : ℕ → Bool)
    (tokens : List Text) (prompt_tokens : ℕ)
    → Encodes encode delta_of
    → ((i : ℕ) → gone i ≡ false)
    → stream_proxy delta_of true (reads_of (stream_response encode h gone tokens)) ≡ record {
      content = (non_stream_response h tokens prompt_tokens).content;
      sent = stream_response encode h gone tokens;
      complete = true;
    }
unfolding joined non_stream_response
stream_proxy-stream_response encode delta_of h gone tokens prompt_tokens laws stays =
    let chunks = role_chunk h ∷ word_chunks h 0 tokens in
    subst
      (λ t.
        stream_proxy delta_of true (reads_of t)
        ≡ record { content = join_with 32 tokens; sent = t; complete = true })
      (sym (stream_response_lem encode h gone stays tokens))
      (stream_proxy-frames encode delta_of laws chunks
        ∙ ap
            (λ t. record {
              content = t;
              sent = frames encode chunks ++ done_frame;
              complete = true;
            })
            (joined-word_chunks h tokens))
