-- ===== src/Load/Counts.antt =====
-- What `callStream` of bench/cmd/load/main.go counts in a stream of cmd/mock-backend that internal/gateway
-- has passed on or replays.
use mathlib.Core.List.{append_assoc}
use velocity_gateway.Common.{
  ℕ, zero, suc, ◌+◌, ◌≡◌, refl, sym, ap, ◌∙◌, Bool, true, false, Text, codes, text_eq, List, [],
  ◌∷◌, ◌++◌, Option, none, some, length, All, IsPiece, cut_at-join_with, join_with, cut_at,
  if◌then◌else◌, ◌==◌, arith,
}
use velocity_gateway.Gateway.Text.{is_space, trim_space, strip_prefix, strip_prefix-append, fields}
use velocity_gateway.Gateway.Handler.{ChatMessage}
use velocity_gateway.Gateway.Stream.{is_blank, stream_proxy}
use velocity_gateway.Gateway.Sse.{
  Head, Chunk, role_chunk, piece_at, frame, done_frame, read_lines, reads_of, Encodes,
}
use velocity_gateway.Gateway.Relay.{joined}
use velocity_gateway.Gateway.ReadBack.{frames, data_line, trim_object, read_lines-frame}
use velocity_gateway.Gateway.Replay.{Link, replay_cached_stream}
use velocity_gateway.Gateway.Replayed.{word_chunks, replayed}
use velocity_gateway.Mock.Tokens.{build_tokens, length-build_tokens}
use velocity_gateway.Mock.Words.{build_tokens-IsPiece}
use velocity_gateway.Mock.Server.{stream_response, non_stream_response}
use velocity_gateway.Mock.Streaming.{stream_response_lem, stream_proxy-stream_response}
use velocity_gateway.Load.Calls.{Line, words_in, read_line, read_stream, answered, call_stream}

-- The lines as `ReadBytes` returns them, by the time at which each arrives.
abbrev pub lines_at : (ℕ → ℕ) → ℕ → List Text → List Line
lines_at times i [] = []
lines_at times i (l ∷ ls) =
    record { line = l; ends = false; at = times i } ∷ lines_at times (suc i) ls

words_of : List Chunk → ℕ
words_of [] = 0
words_of (c ∷ cs) = length (fields c.content) + words_of cs

module _ (encode : Chunk → Text) (delta_of : Text → Option Text) (laws : Encodes encode delta_of)
    (times : ℕ → ℕ) where
  read_line-object :
      (p inner t : Text)
      → p ≡ 123 ∷ (inner ++ (125 ∷ []))
      → delta_of p ≡ some t
      → read_line delta_of (data_line p) ≡ some (words_in (some t))
  unfolding read_line text_eq
  read_line-object p inner t e h =
      let trimmed : trim_space (p ++ (10 ∷ [])) ≡ p =
        ap (λ q. trim_space (q ++ (10 ∷ []))) e ∙ trim_object inner ∙ sym e in
      let said : Text → Text → Option ℕ =
        λ q r. if text_eq q (codes "[DONE]") then none else some (words_in (delta_of r)) in
      let line_says : Option Text → Option ℕ =
        λ o. elim o [ none ↦ some 0 | some rest ↦ said (trim_space rest) (trim_space rest) ] in
      ap line_says (strip_prefix-append (codes "data: ") (p ++ (10 ∷ [])))
      ∙ ap (λ q. said q q) trimmed
      ∙ ap (λ q. said q p) e
      ∙ ap (λ o. some (words_in o)) h

  read_line-frame :
      (c : Chunk) → read_line delta_of (data_line (encode c)) ≡ some (length (fields c.content))
  read_line-frame c =
      let (inner, e) = laws.is_object c in
      read_line-object (encode c) inner c.content e (laws.read_back c)

  read_stream-some :
      (line : Text) (i k ttft n : ℕ) (ls : List Line)
      → is_blank line ≡ false
      → read_line delta_of line ≡ some k
      → read_stream delta_of (record { line = line; ends = false; at = times i } ∷ ls) ttft n
        ≡ read_stream delta_of ls (if ttft == 0 then times i else ttft) (n + k)
  unfolding read_stream
  read_stream-some line i k ttft n ls filled e = rw (filled, e)

  counted_done :
      (i ttft n : ℕ)
      → (read_stream delta_of (lines_at times i (read_lines [] done_frame)) ttft n).1 ≡ n
  unfolding read_stream read_lines trim_space strip_prefix is_space text_eq
  counted_done i ttft n = refl

  counted_frames :
      (cs : List Chunk) (i ttft n : ℕ)
      → (read_stream delta_of
          (lines_at times i (read_lines [] (frames encode cs ++ done_frame)))
          ttft
          n).1
        ≡ n + words_of cs
  unfolding frames joined words_of
  counted_frames [] i ttft n = counted_done i ttft n ∙ omega arith
  counted_frames (c ∷ cs) i ttft n =
      let rest = frames encode cs ++ done_frame in
      let seen = if ttft == 0 then times i else ttft in
      let more_seen = if seen == 0 then times (suc i) else seen in
      let k = length (fields c.content) in
      ap (λ t. (read_stream delta_of (lines_at times i (read_lines [] t)) ttft n).1)
        (append_assoc (frame (encode c)) (frames encode cs) done_frame)
      ∙ ap (λ l. (read_stream delta_of (lines_at times i l) ttft n).1)
          (read_lines-frame (encode c) rest (laws.one_line c))
      ∙ ap (λ r. r.1)
          (read_stream-some (data_line (encode c)) i k ttft n
            (lines_at times (suc i) ((10 ∷ []) ∷ read_lines [] rest)) refl (read_line-frame c))
      ∙ ap (λ r. r.1)
          (read_stream-some (10 ∷ []) (suc i) 0 seen (n + k)
            (lines_at times (suc (suc i)) (read_lines [] rest)) refl
            (unfold read_line strip_prefix in refl))
      ∙ counted_frames cs (suc (suc i)) more_seen (n + k + 0)
      ∙ omega arith

fields-piece_at : (i : ℕ) (t : Text) → IsPiece is_space t → fields (piece_at i t) ≡ t ∷ []
unfolding fields cut_at join_with is_space
fields-piece_at zero t h = cut_at-join_with is_space 32 (t ∷ []) refl (h, tt)
fields-piece_at (suc i) t h =
    let later : piece_at (suc i) t ≡ 32 ∷ t = ground arith in
    ap fields later ∙ cut_at-join_with is_space 32 (t ∷ []) refl (h, tt)

words_of-word_chunks :
    (h : Head) (i : ℕ) (ts : List Text)
    → All (IsPiece is_space) ts
    → words_of (word_chunks h i ts) ≡ length ts
unfolding words_of word_chunks fields cut_at
words_of-word_chunks h i [] hs = refl
words_of-word_chunks h i (t ∷ ts) (ht, hs) =
    omega (arith, ap length (fields-piece_at i t ht), words_of-word_chunks h (suc i) ts hs)

-- Tokens that are sent one to a chunk are counted, when each is a word.
module _ (encode : Chunk → Text) (delta_of : Text → Option Text) (laws : Encodes encode delta_of)
    (h : Head) (times : ℕ → ℕ) where
  abbrev counted : Text → ℕ
  counted body = (read_stream delta_of (lines_at times 0 (read_lines [] body)) 0 0).1

  counted_words :
      (ts : List Text)
      → All (IsPiece is_space) ts
      → counted (frames encode (role_chunk h ∷ word_chunks h 0 ts) ++ done_frame) ≡ length ts
  unfolding words_of fields cut_at
  counted_words ts words =
      counted_frames encode delta_of laws times (role_chunk h ∷ word_chunks h 0 ts) 0 0 0
      ∙ omega (arith, words_of-word_chunks h 0 ts words)

-- A stream that the mock backend answers with and the gateway passes on is counted by the load generator,
-- whenever its lines arrive, with exactly as many tokens as the mock backend was asked for; and what the
-- gateway assembled of it is, replayed later as a hit, counted with just as many. All this if no client
-- leaves and every write of the replay is taken.
pub call_stream_counts :
    (encode : Chunk → Text) (delta_of : Text → Option Text) (h h' : Head) (gone : ℕ → Bool)
    (link : Link) (rolls : ℕ → ℕ) (msgs : List ChatMessage) (n : ℕ) (times : ℕ → ℕ) (total : ℕ)
    → Encodes encode delta_of
    → ((i : ℕ) → gone i ≡ false)
    → ((i : ℕ) → link.gone i ≡ false)
    → ((i : ℕ) → link.accepts i ≡ true)
    → let from_mock = stream_response encode h gone (build_tokens rolls msgs n) in
      let relayed = stream_proxy delta_of true (reads_of from_mock) in
      let replay = replay_cached_stream encode h' link true relayed.content in
      let tokens_of : Text → Text → ℕ = λ header body.
        (call_stream delta_of
          (answered 200 header (lines_at times 0 (read_lines [] body)) total)).tokens in
      (tokens_of (codes "") relayed.sent ≡ n) × (tokens_of (codes "HIT") replay.sent ≡ n)
unfolding call_stream fields non_stream_response
call_stream_counts encode delta_of h h' gone link rolls msgs n times total laws stays stays' takes =
    let ts = build_tokens rolls msgs n in
    let words = build_tokens-IsPiece rolls msgs n in
    let relayed = stream_proxy-stream_response encode delta_of h gone ts 0 laws stays in
    let count : Head → Text → ℕ = λ k. counted encode delta_of laws k times in
    (
      ap (λ p. count h p.sent) relayed
          ∙ ap (count h) (stream_response_lem encode h gone stays ts)
          ∙ counted_words encode delta_of laws h times ts words
          ∙ length-build_tokens rolls msgs n,
      ap (λ p. count h' (replay_cached_stream encode h' link true p.content).sent) relayed
          ∙ ap (count h') (replayed encode h' link stays' takes (join_with 32 ts))
          ∙ ap (λ us. count h' (frames encode (role_chunk h' ∷ word_chunks h' 0 us) ++ done_frame))
              (cut_at-join_with is_space 32 ts (unfold is_space in refl) words)
          ∙ counted_words encode delta_of laws h' times ts words
          ∙ length-build_tokens rolls msgs n,
    )
