-- ===== src/Gateway/Replay.antt =====
-- `replayCachedStream` of internal/gateway/stream.go and `serveCacheHit` of handler.go.
use velocity_gateway.Common.{
  ℕ, suc, ◌+◌, Bool, true, false, Text, List, [], ◌∷◌, ◌++◌, if◌then◌else◌,
}
use velocity_gateway.Cache.Store.{Entry}
use velocity_gateway.Gateway.Text.{fields}
use velocity_gateway.Gateway.Stream.{is_blank}
use velocity_gateway.Gateway.Sse.{
  Head, Chunk, role_chunk, content_chunk, stop_chunk, piece_at, frame, done_frame,
}

-- The client: whether it is gone before a word, and whether it takes a write.
pub record Link : Type 0 where
  pub gone : ℕ → Bool
  pub accepts : ℕ → Bool

-- What was sent, and whether an error is returned.
pub record Replayed : Type 0 where
  pub sent : Text
  pub failed : Bool

module _ (encode : Chunk → Text) (h : Head) (link : Link) where
  -- The final chunk and the sentinel, as the writes `n` and `n + 1`.
  unfoldable pub finish_replay : ℕ → Text → Replayed
  unfolding frame
  finish_replay n sent =
      let sent' = sent ++ frame (encode (stop_chunk h)) in
      if link.accepts n
      then (if link.accepts (n + 1)
          then record { sent = sent' ++ done_frame; failed = false }
          else record { sent = sent'; failed = true })
      else record { sent = sent; failed = true }

  -- The loop over the words, at word `i`, which is the write `i + 1`.
  unfoldable pub replay_words : ℕ → List Text → Text → Replayed
  unfolding finish_replay
  replay_words i [] sent = finish_replay (suc i) sent
  replay_words i (tok ∷ toks) sent =
      let rest =
        replay_words (suc i) toks (sent ++ frame (encode (content_chunk h (piece_at i tok)))) in
      let stopped : Replayed = record { sent = sent; failed = true } in
      if link.gone i then stopped else if link.accepts (suc i) then rest else stopped

  unfoldable pub replay_cached_stream : Bool → Text → Replayed
  unfolding replay_words
  replay_cached_stream false content = record { sent = []; failed = true }
  replay_cached_stream true content =
      let started = replay_words 0 (fields content) (frame (encode (role_chunk h))) in
      if link.accepts 0 then started else record { sent = []; failed = true }

  -- What a hit is answered with; `rebuild` is the JSON of a completion that is put together anew.
  unfoldable serve_cache_hit : (Head → Text → Text) → Bool → Bool → Entry → Text
  unfolding replay_cached_stream
  serve_cache_hit rebuild flushes true e = (replay_cached_stream flushes e.content).sent
  serve_cache_hit rebuild flushes false e = if is_blank e.raw then rebuild h e.content else e.raw
