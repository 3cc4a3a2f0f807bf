-- ===== src/Load/Workers.antt =====
-- `runWorkload` of bench/cmd/load/main.go. The random numbers are arguments.
use velocity_gateway.Common.{
  ℕ, ◌%◌, Bool, ◌||◌, Text, List, [], ◌∷◌, ◌++◌, Option, none, some, length, get_elem?, modify,
  if◌then◌else◌, ◌==◌, ltb,
}
use velocity_gateway.Common.Int64.{Int64, add64}
use velocity_gateway.Load.Calls.{Result}

-- What a worker draws for a request: whether it is above the repeat rate, and two numbers.
pub record Draw : Type 0 where
  pub above : Bool
  of_prompts : ℕ
  of_recent : ℕ

-- The new prompt, `[w%d-%d] %s`, by the label that a worker puts before a prompt of the file; `none` is
-- the panic of an empty range or an index out of range.
unfoldable choose_prompt : List Text → Bool → Text → Draw → List Text → Option (Text × List Text)
choose_prompt prompts unique_only label d recent =
    if unique_only || (length recent == 0) || d.above
    then (elim (get_elem? prompts (d.of_prompts % length prompts)) [
      | none ↦ none
      | some text ↦
          let p = label ++ text in
          some (
            p,
            if ltb (length recent) 8
                then recent ++ (p ∷ [])
                else modify recent (d.of_recent % length recent) (λ _. p),
          )
    ])
    else (elim (get_elem? recent (d.of_recent % length recent)) [
      | none ↦ none
      | some p ↦ some (p, recent)
    ])

-- The counters that the workers share, and the results.
pub record Aggregate : Type 0 where
  pub results : List Result
  pub requests : Int64
  pub ok : Int64
  pub cache_hits : Int64
  pub total_tokens : Int64

abbrev pub empty_aggregate : Aggregate
empty_aggregate = record { results = []; requests = 0; ok = 0; cache_hits = 0; total_tokens = 0 }

-- What a worker does to them after a call, each at once: the atomic counters, and the append under the
-- mutex.
pub data Add : Type 0 where
  adds_request adds_ok adds_hit : Add
  adds_tokens : ℕ → Add
  appends : Result → Add

unfoldable pub adds_of : Result → List Add
adds_of r =
    let end = adds_tokens r.tokens ∷ appends r ∷ [] in
    let hit = if r.cache_hit then adds_hit ∷ end else end in
    adds_request ∷ (if r.ok then adds_ok ∷ hit else hit)

unfoldable pub add_to : Add → Aggregate → Aggregate
add_to adds_request a = record a { requests = add64 a.requests 1 }
add_to adds_ok a = record a { ok = add64 a.ok 1 }
add_to adds_hit a = record a { cache_hits = add64 a.cache_hits 1 }
add_to (adds_tokens n) a = record a { total_tokens = add64 a.total_tokens n }
add_to (appends r) a = record a { results = a.results ++ (r ∷ []) }

-- What all the workers do, in the order in which it happens.
unfoldable pub run_workload : List Add → Aggregate → Aggregate
unfolding add_to
run_workload [] a = a
run_workload (x ∷ xs) a = run_workload xs (add_to x a)
