-- ===== src/Router/Selection.antt =====
-- `pick` and `weightedPick` of internal/router/router.go. A pointer to a backend is its index beside
-- what it points to at the time of the call. The two random numbers are arguments: `rand.Intn(n)` is
-- a number modulo `n`, or a panic.
use velocity_gateway.Common.{
  ℕ, suc, ◌-◌, ◌%◌, Bool, Text, codes, text_eq, mem_text, List, [], ◌∷◌, Option, none, some, length,
  get_elem?, if◌then◌else◌, ◌==◌, ltb,
}
use velocity_gateway.Common.Int64.{Int64, modulus, add64, sub64, is_neg, is_nonpos, le64}
use velocity_gateway.Router.Backend.{Backend}
use velocity_gateway.Router.State.{Router}

abbrev pub Pointer : Type 0
Pointer = ℕ × Backend

-- The healthy backends whose name is not in `exclude`; `i` is the index of the first of the list.
unfoldable pub candidates : List Text → ℕ → List Backend → List Pointer
candidates exclude i [] = []
candidates exclude i (b ∷ bs) =
    let rest = candidates exclude (suc i) bs in
    if mem_text b.name exclude then rest else if b.healthy then (i, b) ∷ rest else rest

-- The last resort: the first backend that is not excluded.
unfoldable pub first_untried : List Text → ℕ → List Backend → Option Pointer
first_untried exclude i [] = none
first_untried exclude i (b ∷ bs) =
    let rest = first_untried exclude (suc i) bs in
    if mem_text b.name exclude then rest else some (i, b)

unfoldable pub total_weight : Int64 → List Pointer → Int64
total_weight total [] = total
total_weight total (p ∷ ps) = total_weight (add64 total p.1.weight) ps

-- `x -= b.Weight; if x < 0 { return b }`
unfoldable pub walk : Int64 → List Pointer → Option Pointer
walk x [] = none
walk x (p ∷ ps) =
    let y = sub64 x p.1.weight in let rest = walk y ps in if is_neg y then some p else rest

abbrev pub or_else {ℓ} : {A : Type ℓ} → Option A → Option A → Option A
or_else none other = other
or_else (some a) other = some a

-- `rand.Intn(n)`, which panics unless `n` is positive.
unfoldable pub intn : ℕ → Int64 → Option ℕ
intn roll n = if is_nonpos n then none else some (roll % n)

-- `none` is a panic: of `rand.Intn`, or of the index into an empty list, whose length `Intn` refuses too.
unfoldable pub weighted_pick : List Pointer → ℕ → Option Pointer
unfolding total_weight walk intn
weighted_pick bs roll =
    let total = total_weight 0 bs in
    if is_nonpos total then get_elem? bs (roll % length bs) else (elim (intn roll total) [
      | none ↦ none
      | some x ↦ or_else (walk x bs) (get_elem? bs (length bs - 1))
    ])

-- "Force two distinct picks": the first candidate other than `a`, or else `c`.
unfoldable pub other_than : Pointer → List Pointer → Pointer → Pointer
other_than a [] c = c
other_than a (x ∷ xs) c = let rest = other_than a xs c in if x.0 == a.0 then rest else x

abbrev pub less_loaded : Pointer → Pointer → Pointer
less_loaded a c = if le64 a.1.in_flight c.1.in_flight then a else c

unfoldable pub two_choices : List Pointer → Pointer → Pointer → Pointer
unfolding other_than
two_choices cs a c =
    less_loaded a (if a.0 == c.0 then (if ltb 1 (length cs) then other_than a cs c else c) else c)

-- `rrIdx % len(candidates)` as an index: Go's remainder has the sign of `rrIdx`, and an index below
-- 0 panics.
unfoldable pub rr_choice : Int64 → List Pointer → Option Pointer
rr_choice idx cs =
    if is_neg idx
    then (if ((modulus - idx) % length cs) == 0 then get_elem? cs 0 else none)
    else get_elem? cs (idx % length cs)

-- What `pick` does: it returns nil or a backend with the next `rrIdx`, or it panics.
pub data Picked : Type 0 where
  nothing panics : Picked
  picked : Pointer → Int64 → Picked

unfoldable pub or_panic : Option Pointer → Int64 → Picked
or_panic none idx = panics
or_panic (some p) idx = picked p idx

unfoldable pub or_nothing : Option Pointer → Int64 → Picked
or_nothing none idx = nothing
or_nothing (some p) idx = picked p idx

unfoldable pub p2c : List Pointer → ℕ → ℕ → Option Pointer
unfolding weighted_pick two_choices
p2c cs roll roll' = elim (weighted_pick cs roll) [
  | none ↦ none
  | some a ↦ elim (weighted_pick cs roll') [ none ↦ none | some c ↦ some (two_choices cs a c) ]
]

unfoldable pub choose : Bool → List Pointer → Int64 → ℕ → ℕ → Picked
unfolding or_panic rr_choice p2c
choose round_robin [] idx roll roll' = nothing
choose round_robin (c ∷ cs) idx roll roll' =
    if round_robin
    then or_panic (rr_choice idx (c ∷ cs)) (add64 idx 1)
    else if length cs == 0
    then picked c idx
    else or_panic (p2c (c ∷ cs) roll roll') idx

abbrev is_empty {ℓ} : {A : Type ℓ} → List A → Bool
is_empty [] = Bool.true
is_empty (x ∷ xs) = Bool.false

unfoldable pub pick : Router → List Text → ℕ → ℕ → Picked
unfolding candidates first_untried or_nothing choose
pick r exclude roll roll' =
    let cs = candidates exclude 0 r.backends in
    if is_empty cs
    then or_nothing (first_untried exclude 0 r.backends) r.rr_idx
    else choose (text_eq r.cfg.strategy (codes "round_robin")) cs r.rr_idx roll roll'
