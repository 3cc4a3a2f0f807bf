-- ===== src/Mock/Tokens.antt =====
-- The tokens that cmd/mock-backend/main.go answers with.
use velocity_gateway.Common.{
  ℕ, zero, suc, ◌+◌, ◌-◌, ◌%◌, ◌≡◌, refl, ap, Text, codes, text_eq, List, [], ◌∷◌, ◌++◌, none, some,
  length, length-append, get_elem?, take, drop, length-take, if◌then◌else◌, arith,
}
use velocity_gateway.Common.Int64.{Int64, is_nonpos}
use velocity_gateway.Gateway.Text.{fields}
use velocity_gateway.Gateway.Handler.{ChatMessage}

unfoldable pub vocab : List Text
vocab =
    codes "The"
    ∷ codes "Velo"
    ∷ codes "gateway"
    ∷ codes "is"
    ∷ codes "an"
    ∷ codes "LLM"
    ∷ codes "inference"
    ∷ codes "proxy"
    ∷ codes "with"
    ∷ codes "continuous"
    ∷ codes "batching"
    ∷ codes "semantic"
    ∷ codes "cache"
    ∷ codes "and"
    ∷ codes "rate"
    ∷ codes "limiting"
    ∷ codes "."
    ∷ codes "It"
    ∷ codes "supports"
    ∷ codes "multi-backend"
    ∷ codes "failover"
    ∷ codes "streaming"
    ∷ codes "SSE"
    ∷ codes "tokens"
    ∷ codes "and"
    ∷ codes "Prometheus"
    ∷ codes "metrics"
    ∷ codes "for"
    ∷ codes "observability"
    ∷ codes "."
    ∷ codes "Throughput"
    ∷ codes "scales"
    ∷ codes "linearly"
    ∷ codes "with"
    ∷ codes "batch"
    ∷ codes "size"
    ∷ codes "until"
    ∷ codes "the"
    ∷ codes "backend"
    ∷ codes "saturates"
    ∷ codes "."
    ∷ []

-- `vocab[rand.Intn(len(vocab))]`; the index is always in range.
unfoldable pub vocab_word : ℕ → Text
unfolding vocab
vocab_word roll = elim (get_elem? vocab (roll % length vocab)) [ none ↦ [] | some w ↦ w ]

-- The content of the last message of the user, after `found`.
unfoldable pub last_user : Text → List ChatMessage → Text
last_user found [] = found
last_user found (m ∷ ms) = last_user (if text_eq m.role (codes "user") then m.content else found) ms

-- `if len(echo) > 6 { echo = echo[len(echo)-6:] }`
unfoldable pub last_six : List Text → List Text
last_six ws = drop (length ws - 6) ws

-- `for len(out) < n { out = append(out, …) }`, as the words that are appended.
unfoldable pub padding : (ℕ → ℕ) → ℕ → ℕ → List Text
unfolding vocab_word
padding rolls i zero = []
padding rolls i (suc k) = vocab_word (rolls i) ∷ padding rolls (suc i) k

unfoldable pub build_tokens : (ℕ → ℕ) → List ChatMessage → ℕ → List Text
unfolding last_user last_six padding
build_tokens rolls msgs n =
    let out = codes "Answer:" ∷ last_six (fields (last_user [] msgs)) in
    take n (out ++ padding rolls 0 (n - length out))

unfoldable pub count_prompt_tokens : List ChatMessage → ℕ
count_prompt_tokens [] = 0
count_prompt_tokens (m ∷ ms) = length (fields m.content) + 2 + count_prompt_tokens ms

-- `nTokens`: what the request asks for, or the default.
unfoldable pub token_count : Int64 → Int64 → Int64
token_count default_tokens max_tokens = if is_nonpos max_tokens then default_tokens else max_tokens

length-padding : (rolls : ℕ → ℕ) (i k : ℕ) → length (padding rolls i k) ≡ k
unfolding padding
length-padding rolls i zero = refl
length-padding rolls i (suc k) = ap suc (length-padding rolls (suc i) k)

-- There are as many tokens as were asked for, whatever the messages and the random numbers are.
pub length-build_tokens :
    (rolls : ℕ → ℕ) (msgs : List ChatMessage) (n : ℕ) → length (build_tokens rolls msgs n) ≡ n
unfolding build_tokens
length-build_tokens rolls msgs n =
    let out = codes "Answer:" ∷ last_six (fields (last_user [] msgs)) in
    let pad = padding rolls 0 (n - length out) in
    omega (
      arith,
      length-take n (out ++ pad),
      length-append {0} out pad,
      length-padding rolls 0 (n - length out),
    )
