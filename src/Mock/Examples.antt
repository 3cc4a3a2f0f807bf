-- ===== src/Mock/Examples.antt =====
-- A JSON codec of a simple kind, and the theorems on the streams applied to it.
use velocity_gateway.Common.{
  ℕ, ◌+◌, ◌-◌, ◌≡◌, refl, ap, true, false, Text, codes, List, [], ◌∷◌, ◌++◌, Option, none, some,
  if◌then◌else◌, ◌==◌, All, All-append, leb, join_with, arith,
}
use velocity_gateway.Gateway.Text.{fields}
use velocity_gateway.Gateway.Stream.{stream_proxy}
use velocity_gateway.Gateway.Handler.{ChatMessage}
use velocity_gateway.Gateway.Sse.{Head, Chunk, read_lines, reads_of, Encodes}
use velocity_gateway.Gateway.Replay.{Link, replay_cached_stream}
use velocity_gateway.Gateway.Replayed.{replay_read_back}
use velocity_gateway.Mock.Tokens.{build_tokens}
use velocity_gateway.Mock.Server.{stream_response, non_stream_response}
use velocity_gateway.Mock.Streaming.{stream_proxy-stream_response}
use velocity_gateway.Load.Calls.{answered, call_stream}
use velocity_gateway.Load.Counts.{lines_at, call_stream_counts}

-- The content between braces, each character as a number from 200 on.
abbrev shifted : Text → Text
shifted [] = []
shifted (c ∷ cs) = (c + 200) ∷ shifted cs

abbrev unshifted : Text → Text
unshifted [] = []
unshifted (c ∷ cs) = let rest = unshifted cs in if leb 200 c then (c - 200) ∷ rest else []

abbrev encode : Chunk → Text
encode c = 123 ∷ (shifted c.content ++ (125 ∷ []))

abbrev decode : Text → Option Text
decode [] = none
decode (b ∷ t) = some (unshifted t)

shifted_back : (t : Text) → unshifted (shifted t ++ (125 ∷ [])) ≡ t
shifted_back [] = refl
shifted_back (c ∷ cs) = ground (arith, shifted_back cs)

shifted_line : (t : Text) → All (λ x. (x == 10) ≡ false) (shifted t)
shifted_line [] = tt
shifted_line (c ∷ cs) = (ground arith, shifted_line cs)

codec_laws : Encodes encode decode
codec_laws = record {
  is_object = λ c. (shifted c.content, refl);
  one_line = λ c. (
    refl,
    All-append (λ x. (x == 10) ≡ false) (shifted c.content) (125 ∷ []) (shifted_line c.content)
        (refl, tt),
  );
  read_back = λ c. ap some (shifted_back c.content);
}

abbrev head : Head
head = record { id = codes "chatcmpl-1"; created = 7; model = codes "m" }

abbrev link : Link
link = record { gone = λ i. false; accepts = λ i. true }

abbrev text : Text
text = codes "a  cached\nanswer"

replay_read_back_example :
    let sent = (replay_cached_stream encode head link true text).sent in
    stream_proxy decode true (reads_of sent)
    ≡ record { content = join_with 32 (fields text); sent = sent; complete = true }
replay_read_back_example =
    replay_read_back encode decode head link text codec_laws (λ i. refl) (λ i. refl)

abbrev question : List ChatMessage
question = record { role = codes "user"; content = codes "what is raft" } ∷ []

stream_proxy-stream_response_example :
    stream_proxy decode true
      (reads_of (stream_response encode head (λ i. false) (build_tokens (λ i. i) question 9)))
    ≡ record {
      content = (non_stream_response head (build_tokens (λ i. i) question 9) 5).content;
      sent = stream_response encode head (λ i. false) (build_tokens (λ i. i) question 9);
      complete = true;
    }
stream_proxy-stream_response_example =
    stream_proxy-stream_response encode decode head (λ i. false) (build_tokens (λ i. i) question 9)
      5 codec_laws (λ i. refl)

call_stream_counts_example :
    let from_mock = stream_response encode head (λ i. false) (build_tokens (λ i. i) question 9) in
    let relayed = stream_proxy decode true (reads_of from_mock) in
    let replay = replay_cached_stream encode head link true relayed.content in
    let tokens_of : Text → Text → ℕ = λ header body.
      (call_stream decode
        (answered 200 header (lines_at (λ i. 5000 + i) 0 (read_lines [] body)) 9000)).tokens in
    (tokens_of (codes "") relayed.sent ≡ 9) × (tokens_of (codes "HIT") replay.sent ≡ 9)
call_stream_counts_example =
    call_stream_counts encode decode head head (λ i. false) link (λ i. i) question 9 (λ i. 5000 + i)
      9000 codec_laws (λ i. refl) (λ i. refl) (λ i. refl)
