-- ===== src/Load/Examples.antt =====
-- Runs of the load generator, bench/cmd/load.
use mathlib.Core.List.Perm
use velocity_gateway.Gateway.Text.{is_space, strip_prefix, fields}
use velocity_gateway.Common.{
  ℕ, ◌/◌, ◌≡◌, refl, true, false, Text, codes, List, [], ◌∷◌, Option, some, text_eq, cut_at,
}
use velocity_gateway.Load.Calls.{
  Result, no_result, Line, answered, call_stream, prompts, load_prompts,
}
use velocity_gateway.Load.Workers.{Add, empty_aggregate, run_workload}
use velocity_gateway.Load.Report.{percentile, times_of}
use velocity_gateway.Load.Totals.{IsTotal, all_adds, run_workload-IsTotal}

-- Comments and blank lines are left out.
load_prompts_test :
    load_prompts (some (codes "# of the day" ∷ codes "" ∷ codes " what is a monad? " ∷ [], false))
    ≡ prompts (codes "what is a monad?" ∷ [])
unfolding load_prompts is_space strip_prefix
load_prompts_test = refl

-- The payload itself as the content.
abbrev content_of : Text → Option Text
content_of payload = some payload

abbrev line_at : Text → ℕ → Line
line_at t n = record { line = t; ends = false; at = n }

abbrev warm_call : Result
warm_call = record { ok = true; cache_hit = true; ttft = 3; total = 9; tokens = 3 }

call_stream_test :
    call_stream content_of (
      answered 200
        (codes "HIT")
        (line_at (codes "data: two words") 3000
          ∷ line_at (codes ": a comment") 4000
          ∷ line_at (codes "data: one") 5000
          ∷ line_at (codes "data: [DONE]") 6000
          ∷ line_at (codes "data: not read") 7000
          ∷ [])
        9000)
    ≡ warm_call
unfolding call_stream text_eq strip_prefix is_space fields cut_at
call_stream_test = refl

call_stream_refused : call_stream content_of (answered 429 (codes "") [] 9000) ≡ no_result
unfolding call_stream
call_stream_refused = refl

-- The median of five.
abbrev half : ℕ → ℕ
half n = n / 2

percentile_test :
    percentile half (times_of (λ r. r.total) (warm_call ∷ no_result ∷ warm_call ∷ [])) ≡ some 9
unfolding percentile times_of
percentile_test = refl

-- A call that fails adds to the number of requests after the call that hits has added its own.
abbrev two_adds : List Add
two_adds = all_adds (warm_call ∷ no_result ∷ [])

run_workload-IsTotal_example :
    IsTotal (warm_call ∷ no_result ∷ []) (run_workload two_adds empty_aggregate)
run_workload-IsTotal_example =
    run_workload-IsTotal (warm_call ∷ no_result ∷ []) two_adds (Perm.refl two_adds)
