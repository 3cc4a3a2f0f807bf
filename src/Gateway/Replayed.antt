-- ===== src/Gateway/Replayed.antt =====
-- A cached completion that internal/gateway replays as a stream, as a client reads it.
use velocity_gateway.Common.{
  ℕ, suc, ◌+◌, ◌≡◌, refl, sym, ap, ◌∙◌, subst, true, false, Text, List, [], ◌∷◌, ◌++◌, Option,
  join_with, arith,
}
use mathlib.Core.List.{append-nil, append_assoc}
use velocity_gateway.Gateway.Text.{fields}
use velocity_gateway.Gateway.Stream.{stream_proxy}
use velocity_gateway.Gateway.Sse.{
  Head, Chunk, role_chunk, content_chunk, stop_chunk, piece_at, frame, done_frame, reads_of,
  Encodes,
}
use velocity_gateway.Gateway.Replay.{Link, finish_replay, replay_words, replay_cached_stream}
use velocity_gateway.Gateway.Relay.{joined}
use velocity_gateway.Gateway.ReadBack.{frames, stream_proxy-frames}

-- The chunks of words from the word `i` on, and the final one.
unfoldable pub word_chunks : Head → ℕ → List Text → List Chunk
word_chunks h i [] = stop_chunk h ∷ []
word_chunks h i (t ∷ ts) = content_chunk h (piece_at i t) ∷ word_chunks h (suc i) ts

piece_later : (i : ℕ) (t : Text) → piece_at (suc i) t ≡ 32 ∷ t
piece_later i t = ground arith

-- The contents of the chunks are the words with spaces between them.
later_words :
    (h : Head) (i : ℕ) (t : Text) (ts : List Text)
    → joined (λ (c : Chunk). c.content) (word_chunks h (suc i) (t ∷ ts))
      ≡ 32 ∷ join_with 32 (t ∷ ts)
unfolding joined word_chunks join_with
later_words h i t [] = append-nil (piece_at (suc i) t) ∙ piece_later i t
later_words h i t (u ∷ us) =
    ap (λ p. p ++ joined (λ (c : Chunk). c.content) (word_chunks h (suc (suc i)) (u ∷ us)))
      (piece_later i t)
    ∙ ap (λ x. 32 ∷ (t ++ x)) (later_words h (suc i) u us)

pub joined-word_chunks :
    (h : Head) (ts : List Text)
    → joined (λ (c : Chunk). c.content) (word_chunks h 0 ts) ≡ join_with 32 ts
unfolding joined word_chunks join_with
joined-word_chunks h [] = refl
joined-word_chunks h (t ∷ []) = append-nil t
joined-word_chunks h (t ∷ u ∷ us) = ap (λ x. t ++ x) (later_words h 0 u us)

module _ (encode : Chunk → Text) (h : Head) (link : Link) (stays : (i : ℕ) → link.gone i ≡ false)
    (takes : (i : ℕ) → link.accepts i ≡ true) where
  replay_words_lem :
      (i : ℕ) (ts : List Text) (sent : Text)
      → (replay_words encode h link i ts sent).sent
        ≡ sent ++ (frames encode (word_chunks h i ts) ++ done_frame)
  unfolding replay_words finish_replay frames joined word_chunks
  replay_words_lem i [] sent =
      let last = frame (encode (stop_chunk h)) in
      rw (takes (suc i), takes (suc i + 1))
        (append_assoc sent last done_frame
          ∙ ap (λ x. sent ++ (x ++ done_frame)) (sym (append-nil last)))
  replay_words_lem i (t ∷ ts) sent =
      let first = frame (encode (content_chunk h (piece_at i t))) in
      let rest = frames encode (word_chunks h (suc i) ts) in
      rw (stays i, takes (suc i))
        (replay_words_lem (suc i) ts (sent ++ first)
          ∙ append_assoc sent first (rest ++ done_frame)
          ∙ ap (λ x. sent ++ x) (sym (append_assoc first rest done_frame)))

  pub replayed :
      (content : Text)
      → (replay_cached_stream encode h link true content).sent
        ≡ frames encode (role_chunk h ∷ word_chunks h 0 (fields content)) ++ done_frame
  unfolding replay_cached_stream frames joined
  replayed content =
      let first = frame (encode (role_chunk h)) in
      rw (takes 0) (
        replay_words_lem 0 (fields content) first
        ∙ sym (append_assoc first (frames encode (word_chunks h 0 (fields content))) done_frame))

-- A cached completion that is replayed to a client that stays and takes every write reads, by
-- `streamProxy`, as the words of the completion with single spaces between them: what separated them is
-- lost, and nothing else. What is read is complete.
pub replay_read_back :
    (encode : Chunk → Text) (delta_of : Text → Option Text) (h : Head) (link : Link)
    (content : Text)
    → Encodes encode delta_of
    → ((i : ℕ) → link.gone i ≡ false)
    → ((i : ℕ) → link.accepts i ≡ true)
    → let sent = (replay_cached_stream encode h link true content).sent in
      stream_proxy delta_of true (reads_of sent)
      ≡ record { content = join_with 32 (fields content); sent = sent; complete = true }
unfolding joined
replay_read_back encode delta_of h link content laws stays takes =
    let chunks = role_chunk h ∷ word_chunks h 0 (fields content) in
    subst
      (λ t.
        stream_proxy delta_of true (reads_of t)
        ≡ record { content = join_with 32 (fields content); sent = t; complete = true })
      (sym (replayed encode h link stays takes content))
      (stream_proxy-frames encode delta_of laws chunks
        ∙ ap
            (λ t. record {
              content = t;
              sent = frames encode chunks ++ done_frame;
              complete = true;
            })
            (joined-word_chunks h (fields content)))
