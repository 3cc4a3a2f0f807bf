-- ===== src/Router/Weights.antt =====
-- `weightedPick` of internal/router/router.go picks by weight.
use native.Mathlib.Nat.{mod-eq_of_lt}
use velocity_gateway.Common.{ℕ, ◌+◌, ◌≤◌, ◌<◌, ◌≡◌, List, [], ◌∷◌, ◌++◌, some, arith, ◌%◌}
use velocity_gateway.Common.Int64.{Int64, IsNat64, add64, sub64}
use velocity_gateway.Router.Selection.{Pointer, total_weight, walk, weighted_pick}

-- The weights as plain numbers.
abbrev weight_sum : List Pointer → ℕ
weight_sum [] = 0
weight_sum (p ∷ ps) = p.1.weight + weight_sum ps

weight_sum-append : (ps qs : List Pointer) → weight_sum (ps ++ qs) ≡ weight_sum ps + weight_sum qs
weight_sum-append [] qs = omega arith
weight_sum-append (p ∷ ps) qs = omega (arith, weight_sum-append ps qs)

total_weight-eq-sum :
    (total : Int64) (ps : List Pointer)
    → IsNat64 (total + weight_sum ps)
    → total_weight total ps ≡ total + weight_sum ps
unfolding total_weight
total_weight-eq-sum total [] h = omega arith
total_weight-eq-sum total (p ∷ ps) h =
    omega (arith, total_weight-eq-sum (add64 total p.1.weight) ps (omega arith))

walk_hits :
    (x : Int64) (ps : List Pointer) (p : Pointer) (qs : List Pointer)
    → IsNat64 (weight_sum ps + p.1.weight)
    → weight_sum ps ≤ x
    → x < weight_sum ps + p.1.weight
    → walk x (ps ++ p ∷ qs) ≡ some p
unfolding walk
walk_hits x [] p qs n lo hi = ground arith
walk_hits x (q ∷ ps) p qs n lo hi = ground (arith, walk_hits (sub64 x q.1.weight) ps p qs)

pick_hits :
    (total roll : ℕ) (cs : List Pointer) (p : Pointer)
    → total_weight 0 cs ≡ total
    → walk (roll % total) cs ≡ some p
    → IsNat64 total
    → 0 < total
    → weighted_pick cs roll ≡ some p
unfolding weighted_pick
pick_hits total roll cs p e h n pos = ground arith

-- The weighted choice is exact: of the numbers below the total weight, which `rand.Intn` draws from,
-- those from the sum of the weights before a candidate up to that sum and its own weight choose that
-- candidate. So it is chosen by as many numbers as its weight, if the weights add up without
-- overflow.
pub weighted_pick_by_weight :
    (ps : List Pointer) (p : Pointer) (qs : List Pointer) (roll : ℕ)
    → IsNat64 (weight_sum (ps ++ p ∷ qs))
    → weight_sum ps ≤ roll
    → roll < weight_sum ps + p.1.weight
    → weighted_pick (ps ++ p ∷ qs) roll ≡ some p
weighted_pick_by_weight ps p qs roll n lo hi =
    let split = weight_sum-append ps (p ∷ qs) in
    let below : roll < weight_sum (ps ++ p ∷ qs) = omega arith in
    let same : roll % weight_sum (ps ++ p ∷ qs) ≡ roll = mod-eq_of_lt below in
    pick_hits (weight_sum (ps ++ p ∷ qs)) roll (ps ++ p ∷ qs) p
      (omega (arith, total_weight-eq-sum 0 (ps ++ p ∷ qs) (omega arith)))
      (rw same (walk_hits roll ps p qs (omega arith) lo hi)) n (omega arith)
