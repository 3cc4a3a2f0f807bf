-- ===== src/Load/Report.antt =====
-- `percentile` of bench/cmd/load/main.go, and the times that `printSummary` gives it. A time is a natural
-- number of microseconds.
use velocity_gateway.Common.{
  ℕ, ◌-◌, List, [], ◌∷◌, Option, some, length, get_elem?, if◌then◌else◌, leb,
}
use velocity_gateway.Load.Calls.{Result}

unfoldable pub insert_time : ℕ → List ℕ → List ℕ
insert_time x [] = x ∷ []
insert_time x (y ∷ ys) = let rest = insert_time x ys in if leb x y then x ∷ y ∷ ys else y ∷ rest

-- `sort.Float64s`
unfoldable pub sort_times : List ℕ → List ℕ
unfolding insert_time
sort_times [] = []
sort_times (x ∷ xs) = insert_time x (sort_times xs)

-- `index` is `int(float64(n) * p)`; `none` is the panic of an index out of range.
unfoldable pub percentile : (ℕ → ℕ) → List ℕ → Option ℕ
unfolding sort_times
percentile index [] = some 0
percentile index (x ∷ xs) = get_elem? (sort_times (x ∷ xs)) (index (length (x ∷ xs) - 1))

-- The times of the calls that succeeded.
unfoldable pub times_of : (Result → ℕ) → List Result → List ℕ
times_of time [] = []
times_of time (r ∷ rs) = let rest = times_of time rs in if r.ok then time r ∷ rest else rest
