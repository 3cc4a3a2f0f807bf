-- ===== src/Load/Totals.antt =====
-- The totals of `runWorkload`, bench/cmd/load/main.go, whatever the order in which the workers add to them.
use native.Mathlib.Nat.{ℕ_set}
use mathlib.Core.Logic.{∥∥₁_elim}
use mathlib.Core.List.{Perm, Permᴰ}
use velocity_gateway.Common.{
  ℕ, ◌+◌, ◌%◌, ◌≡◌, refl, ap, ◌∙◌, Bool, true, false, List, [], ◌∷◌, ◌++◌, length, arith,
}
use velocity_gateway.Common.Int64.{modulus}
use velocity_gateway.Load.Calls.{Result}
use velocity_gateway.Load.Workers.{
  Aggregate, empty_aggregate, Add, adds_request, adds_ok, adds_hit, adds_tokens, appends, adds_of,
  add_to, run_workload,
}

abbrev one_if : Bool → ℕ
one_if true = 1
one_if false = 0

-- The sum over the results.
unfoldable pub sum_of : (Result → ℕ) → List Result → ℕ
sum_of f [] = 0
sum_of f (r ∷ rs) = f r + sum_of f rs

-- What all calls add.
abbrev pub all_adds : List Result → List Add
all_adds [] = []
all_adds (r ∷ rs) = adds_of r ++ all_adds rs

-- What an addition counts for, by a weight of each kind.
weigh : (Add → ℕ) → List Add → ℕ
weigh w [] = 0
weigh w (x ∷ xs) = w x + weigh w xs

weigh-append : (w : Add → ℕ) (xs ys : List Add) → weigh w (xs ++ ys) ≡ weigh w xs + weigh w ys
unfolding weigh
weigh-append w [] ys = omega arith
weigh-append w (x ∷ xs) ys = omega (arith, weigh-append w xs ys)

weigh-Permᴰ : (w : Add → ℕ) (xs ys : List Add) → Permᴰ xs ys → weigh w xs ≡ weigh w ys
unfolding weigh
weigh-Permᴰ w _ _ Permᴰ.nil = refl
weigh-Permᴰ w (x ∷ xs) (y ∷ ys) (Permᴰ.cons e p) = omega (arith, ap w e, weigh-Permᴰ w xs ys p)
weigh-Permᴰ w (a ∷ b ∷ l) (a' ∷ b' ∷ _) (Permᴰ.swap e f) = omega (arith, ap w e, ap w f)
weigh-Permᴰ w xs ys (Permᴰ.trans p q) = weigh-Permᴰ w xs _ p ∙ weigh-Permᴰ w _ ys q

weigh-Perm : (w : Add → ℕ) (xs ys : List Add) → Perm xs ys → weigh w xs ≡ weigh w ys
weigh-Perm w xs ys p = ∥∥₁_elim p (ℕ_set _ _) (weigh-Permᴰ w xs ys)

abbrev request_weight : Add → ℕ
request_weight adds_request = 1
request_weight _ = 0

abbrev ok_weight : Add → ℕ
ok_weight adds_ok = 1
ok_weight _ = 0

abbrev hit_weight : Add → ℕ
hit_weight adds_hit = 1
hit_weight _ = 0

abbrev token_weight : Add → ℕ
token_weight (adds_tokens n) = n
token_weight _ = 0

abbrev result_weight : (Result → ℕ) → Add → ℕ
result_weight f (appends r) = f r
result_weight f _ = 0

sum_of-append :
    (f : Result → ℕ) (rs ss : List Result) → sum_of f (rs ++ ss) ≡ sum_of f rs + sum_of f ss
unfolding sum_of
sum_of-append f [] ss = omega arith
sum_of-append f (r ∷ rs) ss = omega (arith, sum_of-append f rs ss)

-- What the additions have come to.
record Adds (xs : List Add) (a b : Aggregate) : Type 0 where
  requests : b.requests % modulus ≡ (a.requests + weigh request_weight xs) % modulus
  oks : b.ok % modulus ≡ (a.ok + weigh ok_weight xs) % modulus
  hits : b.cache_hits % modulus ≡ (a.cache_hits + weigh hit_weight xs) % modulus
  tokens : b.total_tokens % modulus ≡ (a.total_tokens + weigh token_weight xs) % modulus
  results : (f : Result → ℕ) → sum_of f b.results ≡ sum_of f a.results + weigh (result_weight f) xs

add_to-Adds : (x : Add) (a : Aggregate) → Adds (x ∷ []) a (add_to x a)
unfolding add_to weigh sum_of
add_to-Adds adds_request a = record {
  requests = omega arith;
  oks = omega arith;
  hits = omega arith;
  tokens = omega arith;
  results = λ f. omega arith;
}
add_to-Adds adds_ok a = record {
  requests = omega arith;
  oks = omega arith;
  hits = omega arith;
  tokens = omega arith;
  results = λ f. omega arith;
}
add_to-Adds adds_hit a = record {
  requests = omega arith;
  oks = omega arith;
  hits = omega arith;
  tokens = omega arith;
  results = λ f. omega arith;
}
add_to-Adds (adds_tokens n) a = record {
  requests = omega arith;
  oks = omega arith;
  hits = omega arith;
  tokens = omega arith;
  results = λ f. omega arith;
}
add_to-Adds (appends r) a = record {
  requests = omega arith;
  oks = omega arith;
  hits = omega arith;
  tokens = omega arith;
  results = λ f. omega (arith, sum_of-append f a.results (r ∷ []));
}

Adds-cons :
    (x : Add) (xs : List Add) (a b c : Aggregate)
    → Adds (x ∷ []) a b
    → Adds xs b c
    → Adds (x ∷ xs) a c
unfolding weigh
Adds-cons x xs a b c p q = record {
  requests = omega (arith, p.requests, q.requests);
  oks = omega (arith, p.oks, q.oks);
  hits = omega (arith, p.hits, q.hits);
  tokens = omega (arith, p.tokens, q.tokens);
  results = λ f. omega (arith, p.results f, q.results f);
}

run_workload-Adds : (xs : List Add) (a : Aggregate) → Adds xs a (run_workload xs a)
unfolding run_workload weigh
run_workload-Adds [] a = record {
  requests = omega arith;
  oks = omega arith;
  hits = omega arith;
  tokens = omega arith;
  results = λ f. omega arith;
}
run_workload-Adds (x ∷ xs) a =
    Adds-cons x xs a (add_to x a) (run_workload xs (add_to x a)) (add_to-Adds x a)
      (run_workload-Adds xs (add_to x a))

-- The additions of each call add up to what its result says.
all_adds_lem :
    (w : Add → ℕ) (f : Result → ℕ) (rs : List Result)
    → ((r : Result) → weigh w (adds_of r) ≡ f r)
    → weigh w (all_adds rs) ≡ sum_of f rs
unfolding weigh sum_of
all_adds_lem w f [] h = refl
all_adds_lem w f (r ∷ rs) h =
    omega (arith, weigh-append w (adds_of r) (all_adds rs), h r, all_adds_lem w f rs h)

sum_of-one : (rs : List Result) → sum_of (λ _. 1) rs ≡ length rs
unfolding sum_of
sum_of-one [] = refl
sum_of-one (r ∷ rs) = omega (arith, sum_of-one rs)

-- The totals are those of the results that were collected.
pub record IsTotal (rs : List Result) (a : Aggregate) : Type 0 where
  all_requests : a.requests % modulus ≡ length rs % modulus
  all_ok : a.ok % modulus ≡ sum_of (λ r. one_if r.ok) rs % modulus
  all_hits : a.cache_hits % modulus ≡ sum_of (λ r. one_if r.cache_hit) rs % modulus
  all_tokens : a.total_tokens % modulus ≡ sum_of (λ r. r.tokens) rs % modulus
  pub collected : (f : Result → ℕ) → sum_of f a.results ≡ sum_of f rs

-- Whatever the order in which the workers add what their calls returned to the shared counters and the
-- results, one addition at a time, in the end the counters are, as int64, the number of calls, of those
-- that succeeded, of the hits and of the tokens, and any sum over the collected results is the sum over
-- all calls.
pub run_workload-IsTotal :
    (rs : List Result) (xs : List Add)
    → Perm xs (all_adds rs)
    → IsTotal rs (run_workload xs empty_aggregate)
unfolding adds_of weigh sum_of
run_workload-IsTotal rs xs p =
    let r = run_workload-Adds xs empty_aggregate in
    let total : (w : Add → ℕ) (f : Result → ℕ)
        → ((r : Result) → weigh w (adds_of r) ≡ f r)
        → weigh w xs ≡ sum_of f rs =
      λ w f h. weigh-Perm w xs (all_adds rs) p ∙ all_adds_lem w f rs h in
    record {
      all_requests =
          omega
            (arith, r.requests, total request_weight (λ _. 1) (λ r. ground arith), sum_of-one rs);
      all_ok = omega (arith, r.oks, total ok_weight (λ r. one_if r.ok) (λ r. ground arith));
      all_hits =
          omega (arith, r.hits, total hit_weight (λ r. one_if r.cache_hit) (λ r. ground arith));
      all_tokens = omega (arith, r.tokens, total token_weight (λ r. r.tokens) (λ r. ground arith));
      collected = λ f. omega (arith, r.results f, total (result_weight f) f (λ r. ground arith));
    }
