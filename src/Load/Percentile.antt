-- ===== src/Load/Percentile.antt =====
-- What `percentile` of bench/cmd/load/main.go returns.
use velocity_gateway.Common.{
  ℕ, zero, suc, ◌≤◌, ◌<◌, ◌≡◌, refl, ap, ◌∙◌, subst, List, [], ◌∷◌, some, length, get_elem?,
  get_elem?_total, All, All-Among, get_elem?-Among, if◌then◌else◌, if_cases, leb, ltb, arith,
}
use mathlib.Core.Option.{some-injective}
use velocity_gateway.Load.Report.{insert_time, sort_times, percentile}

-- How many of the times are below one, and how many are at most one.
abbrev pub below : ℕ → List ℕ → ℕ
below v [] = 0
below v (x ∷ xs) = let rest = below v xs in if ltb x v then suc rest else rest

abbrev pub at_most : ℕ → List ℕ → ℕ
at_most v [] = 0
at_most v (x ∷ xs) = let rest = at_most v xs in if leb x v then suc rest else rest

abbrev Ascending : List ℕ → Type 0
Ascending [] = Unit {0}
Ascending (x ∷ xs) = All (λ y. x ≤ y) xs × Ascending xs

All-weaken : (a b : ℕ) (xs : List ℕ) → a ≤ b → All (λ y. b ≤ y) xs → All (λ y. a ≤ y) xs
All-weaken a b [] h hs = tt
All-weaken a b (x ∷ xs) h (hx, hs) = (omega arith, All-weaken a b xs h hs)

insert_time-All : (P : ℕ → Type 0) (x : ℕ) (xs : List ℕ) → P x → All P xs → All P (insert_time x xs)
unfolding insert_time
insert_time-All P x [] h hs = (h, tt)
insert_time-All P x (y ∷ ys) h (hy, hs) =
    if_cases (λ l. All P l) (leb x y) (λ _. (h, (hy, hs))) (λ _. (hy, insert_time-All P x ys h hs))

insert_time-Ascending : (x : ℕ) (xs : List ℕ) → Ascending xs → Ascending (insert_time x xs)
unfolding insert_time
insert_time-Ascending x [] h = (tt, tt)
insert_time-Ascending x (y ∷ ys) (hy, hs) =
    if_cases (λ l. Ascending l) (leb x y)
      (λ le. ((ground (arith, le), All-weaken x y ys (ground (arith, le)) hy), (hy, hs)))
      (λ gt.
        (insert_time-All (λ z. y ≤ z) x ys (ground (arith, gt)) hy, insert_time-Ascending x ys hs))

sort_times-Ascending : (xs : List ℕ) → Ascending (sort_times xs)
unfolding sort_times
sort_times-Ascending [] = tt
sort_times-Ascending (x ∷ xs) = insert_time-Ascending x (sort_times xs) (sort_times-Ascending xs)

-- Sorting changes neither number.
below-insert_time : (v x : ℕ) (xs : List ℕ) → below v (insert_time x xs) ≡ below v (x ∷ xs)
unfolding insert_time
below-insert_time v x [] = refl
below-insert_time v x (y ∷ ys) = ground (arith, below-insert_time v x ys)

below-sort_times : (v : ℕ) (xs : List ℕ) → below v (sort_times xs) ≡ below v xs
unfolding sort_times
below-sort_times v [] = refl
below-sort_times v (x ∷ xs) =
    ground (arith, below-insert_time v x (sort_times xs), below-sort_times v xs)

at_most-insert_time : (v x : ℕ) (xs : List ℕ) → at_most v (insert_time x xs) ≡ at_most v (x ∷ xs)
unfolding insert_time
at_most-insert_time v x [] = refl
at_most-insert_time v x (y ∷ ys) = ground (arith, at_most-insert_time v x ys)

at_most-sort_times : (v : ℕ) (xs : List ℕ) → at_most v (sort_times xs) ≡ at_most v xs
unfolding sort_times
at_most-sort_times v [] = refl
at_most-sort_times v (x ∷ xs) =
    ground (arith, at_most-insert_time v x (sort_times xs), at_most-sort_times v xs)

length-insert_time : (x : ℕ) (xs : List ℕ) → length (insert_time x xs) ≡ suc (length xs)
unfolding insert_time
length-insert_time x [] = refl
length-insert_time x (y ∷ ys) = ground (arith, length-insert_time x ys)

length-sort_times : (xs : List ℕ) → length (sort_times xs) ≡ length xs
unfolding sort_times
length-sort_times [] = refl
length-sort_times (x ∷ xs) = length-insert_time x (sort_times xs) ∙ ap suc (length-sort_times xs)

none_below : (v : ℕ) (xs : List ℕ) → All (λ y. v ≤ y) xs → below v xs ≡ 0
none_below v [] h = refl
none_below v (x ∷ xs) (h, hs) = ground (arith, none_below v xs hs)

-- The entry at an index of an ascending list: at most so many are below it, and more are at most it.
ranked :
    (xs : List ℕ) (i v : ℕ)
    → Ascending xs
    → get_elem? xs i ≡ some v
    → (below v xs ≤ i) × (i < at_most v xs)
ranked [] i v asc h = cc
ranked (x ∷ xs) zero v (hx, hs) h =
    let e : x ≡ v = some-injective _ _ h in
    let least = subst (λ a. All (λ y. a ≤ y) xs) e hx in
    (ground (arith, e, none_below v xs least), ground (arith, e))
ranked (x ∷ xs) (suc i) v (hx, hs) h =
    let (under, over) = ranked xs i v hs h in
    let le : x ≤ v = All-Among (λ y. x ≤ y) v xs hx (get_elem?-Among xs i v h) in
    (ground (arith, under), ground (arith, over, le))

-- `percentile` of times that are not empty does not index out of range, and returns the time of the rank
-- that the index says: no more than that many times are below it, and more than that many are at most
-- it, as long as the index is at most the number of times less one.
percentile_ranked :
    (index : ℕ → ℕ) (x : ℕ) (xs : List ℕ)
    → index (length xs) ≤ length xs
    → (v : ℕ) × (percentile index (x ∷ xs) ≡ some v)
      × (below v (x ∷ xs) ≤ index (length xs))
      × (index (length xs) < at_most v (x ∷ xs))
unfolding percentile
percentile_ranked index x xs small =
    let sorted = sort_times (x ∷ xs) in
    let i = index (length xs) in
    let (v, e) = get_elem?_total sorted i (omega (arith, length-sort_times (x ∷ xs), small)) in
    let (under, over) = ranked sorted i v (sort_times-Ascending (x ∷ xs)) e in
    (
      v,
      ap (λ k. get_elem? sorted (index k)) (omega arith) ∙ e,
      omega (arith, under, below-sort_times v (x ∷ xs)),
      omega (arith, over, at_most-sort_times v (x ∷ xs)),
    )
