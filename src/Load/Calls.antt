-- ===== src/Load/Calls.antt =====
-- `loadPrompts` and `callStream` of bench/cmd/load/main.go. The JSON decoder, the clock and what the
-- gateway answers are arguments; a time
-- is in nanoseconds, and those of a result are in microseconds.
use velocity_gateway.Common.{
  ℕ, ◌+◌, ◌/◌, Bool, true, false, ◌&&◌, not, Text, codes, text_eq, List, [], ◌∷◌, Option, none,
  some, length, if◌then◌else◌, ◌==◌,
}
use velocity_gateway.Gateway.Text.{trim_space, strip_prefix, fields}
use velocity_gateway.Gateway.Stream.{is_blank}

-- A line that starts a comment.
abbrev is_comment : Text → Bool
is_comment t = elim (strip_prefix (codes "#") t) [ none ↦ false | some rest ↦ true ]

-- The lines that the scanner gives, without blank ones and comments.
unfoldable keep_prompts : List Text → List Text
unfolding trim_space
keep_prompts [] = []
keep_prompts (line ∷ lines) =
    let t = trim_space line in
    let rest = keep_prompts lines in
    if not (is_blank t) && not (is_comment t) then t ∷ rest else rest

-- What `loadPrompts` returns: the prompts, or an error, which may come with prompts.
pub data Loaded : Type 0 where
  prompts : List Text → Loaded
  not_opened no_prompts : Loaded
  unreadable : List Text → Loaded

abbrev of_kept : List Text → Bool → Loaded
of_kept [] failed = no_prompts
of_kept (p ∷ ps) failed = if failed then unreadable (p ∷ ps) else prompts (p ∷ ps)

-- By the lines of the file, if it can be opened, and whether the scanner failed after them.
unfoldable pub load_prompts : Option (List Text × Bool) → Loaded
unfolding keep_prompts
load_prompts none = not_opened
load_prompts (some (lines, failed)) = of_kept (keep_prompts lines) failed

pub record Result : Type 0 where
  pub ok : Bool
  pub cache_hit : Bool
  pub ttft : ℕ
  pub total : ℕ
  pub tokens : ℕ

-- `result{}`
abbrev pub no_result : Result
no_result = record { ok = false; cache_hit = false; ttft = 0; total = 0; tokens = 0 }

-- What `ReadBytes` returns: a line, whether an error comes with it, and the time.
pub record Line : Type 0 where
  pub line : Text
  pub ends : Bool
  pub at : ℕ

-- The words of a chunk, if the payload is one.
abbrev pub words_in : Option Text → ℕ
words_in none = 0
words_in (some content) = length (fields content)

module _ (delta_of : Text → Option Text) where
  -- What a line that is not empty says: the end, or the words of its chunk.
  unfoldable pub read_line : Text → Option ℕ
  unfolding trim_space
  read_line line = elim (strip_prefix (codes "data: ") line) [
    | none ↦ some 0
    | some rest ↦
        let payload = trim_space rest in
        if text_eq payload (codes "[DONE]") then none else some (words_in (delta_of payload))
  ]

  -- The loop, with the time to the first token and the tokens so far.
  unfoldable pub read_stream : List Line → ℕ → ℕ → ℕ × ℕ
  unfolding read_line
  read_stream [] ttft tokens = (ttft, tokens)
  read_stream (l ∷ ls) ttft tokens =
      let ttft' = if ttft == 0 then l.at else ttft in
      let skipped = read_stream ls ttft tokens in
      if is_blank l.line
      then (if l.ends then (ttft, tokens) else skipped)
      else (elim (read_line l.line) [
        | none ↦ (ttft', tokens)
        | some n ↦
            let rest = read_stream ls ttft' (tokens + n) in
            if l.ends then (ttft', tokens + n) else rest
      ])

  -- How the POST ends: no request, no answer, or an answer with its cache header, lines and last time.
  pub data Answer : Type 0 where
    no_request no_answer : Answer
    answered : ℕ → Text → List Line → ℕ → Answer

  unfoldable pub call_stream : Answer → Result
  unfolding read_stream
  call_stream no_request = no_result
  call_stream no_answer = no_result
  call_stream (answered status header lines total) =
      if status / 100 == 2
      then (let (ttft, tokens) = read_stream lines 0 0 in
          record {
            ok = true;
            cache_hit = text_eq header (codes "HIT");
            ttft = ttft / 1000;
            total = total / 1000;
            tokens = tokens;
          })
      else no_result
