-- ===== src/Router/Members.antt =====
-- Where the results of `weightedPick` and of the two strategies of internal/router/router.go come
-- from: the list of candidates.
use velocity_gateway.Common.{
  ℕ, zero, suc, ◌+◌, ◌-◌, ◌%◌, ◌≡◌, refl, subst, sym, inl, inr, Bool, true, false, Text, mem_text,
  List, [], ◌∷◌, Option, none, some, length, get_elem?, All, Among, All-map, get_elem?-Among,
  get_elem?_total, if◌then◌else◌, ◌==◌, Bool-cases, Option-cases, if_cases, ltb, arith,
}
use velocity_gateway.Common.Int64.{Int64, le64, sub64, is_nonpos, add64}
use velocity_gateway.Router.Backend.{Backend}
use velocity_gateway.Router.Selection.{
  Pointer, picked, candidates, first_untried, total_weight, walk, or_else, weighted_pick, intn,
  other_than, two_choices, rr_choice, or_panic, p2c, choose,
}

-- A pointer at or after index `i`, into the list whose first backend has that index.
abbrev PointsFrom : ℕ → List Backend → Pointer → Type 0
PointsFrom i bs p = (j : ℕ) × (p.0 ≡ i + j) × (get_elem? bs j ≡ some p.1)

abbrev IsFresh : List Text → Pointer → Type 0
IsFresh exclude p = mem_text p.1.name exclude ≡ false

abbrev pub IsCandidate : List Text → ℕ → List Backend → Pointer → Type 0
IsCandidate exclude i bs p = PointsFrom i bs p × (IsFresh exclude p × (p.1.healthy ≡ true))

PointsFrom-cons :
    (i : ℕ) (b : Backend) (bs : List Backend) (p : Pointer)
    → PointsFrom (suc i) bs p
    → PointsFrom i (b ∷ bs) p
PointsFrom-cons i b bs p (j, e, g) = (suc j, omega arith, g)

pub candidates_sound :
    (exclude : List Text) (i : ℕ) (bs : List Backend)
    → All (IsCandidate exclude i bs) (candidates exclude i bs)
unfolding candidates
candidates_sound exclude i [] = tt
candidates_sound exclude i (b ∷ bs) =
    let rest =
      All-map (IsCandidate exclude i (b ∷ bs)) (candidates exclude (suc i) bs)
        (λ p c. (PointsFrom-cons i b bs p c.0, c.1)) (candidates_sound exclude (suc i) bs) in
    let P = All (IsCandidate exclude i (b ∷ bs)) in
    if_cases P (mem_text b.name exclude) (λ _. rest)
      λ fresh.
        if_cases P b.healthy (λ up. (((zero, omega arith, refl), (fresh, up)), rest)) (λ _. rest)

pub first_untried_sound :
    (exclude : List Text) (i : ℕ) (bs : List Backend) (p : Pointer)
    → first_untried exclude i bs ≡ some p
    → PointsFrom i bs p × IsFresh exclude p
unfolding first_untried
first_untried_sound exclude i [] p h = cc
first_untried_sound exclude i (b ∷ bs) p h = elim (Bool-cases (mem_text b.name exclude)) [
  | inl e ↦
      let (q, fresh) = first_untried_sound exclude (suc i) bs p (ground arith) in
      (PointsFrom-cons i b bs p q, fresh)
  | inr e ↦ ((zero, ground arith, ground arith), ground arith)
]

walk-Among : (x : Int64) (ps : List Pointer) (p : Pointer) → walk x ps ≡ some p → Among p ps
unfolding walk
walk-Among x [] p h = cc
walk-Among x (q ∷ ps) p h = ground (arith, walk-Among (sub64 x q.1.weight) ps p)

pub weighted_pick-Among :
    (ps : List Pointer) (roll : ℕ) (p : Pointer) → weighted_pick ps roll ≡ some p → Among p ps
unfolding weighted_pick
weighted_pick-Among ps roll p h =
    let total = total_weight 0 ps in
    ground (
      arith,
      walk-Among (roll % total) ps p,
      get_elem?-Among ps (roll % length ps) p,
      get_elem?-Among ps (length ps - 1) p,
    )

or_else_total :
    {A : Type 0} (o o' : Option A) → ((a : A) × (o' ≡ some a)) → (a : A) × (or_else o o' ≡ some a)
or_else_total none o' h = h
or_else_total (some a) o' h = (a, refl)

intn_draws : (roll : ℕ) (n : Int64) → is_nonpos n ≡ false → intn roll n ≡ some (roll % n)
unfolding intn
intn_draws roll n h = ground (arith, h)

-- Neither `rand.Intn` nor an index panics.
weighted_pick_total :
    (q : Pointer) (ps : List Pointer) (roll : ℕ)
    → (p : Pointer) × (weighted_pick (q ∷ ps) roll ≡ some p)
unfolding weighted_pick
weighted_pick_total q ps roll =
    let total = total_weight 0 (q ∷ ps) in
    let last = get_elem? (q ∷ ps) (suc (length ps) - 1) in
    let drawn : Option ℕ → Option Pointer =
      λ o. elim o [ none ↦ none | some x ↦ or_else (walk x (q ∷ ps)) last ] in
    if_cases (λ o. (p : Pointer) × (o ≡ some p)) (is_nonpos total)
      (λ _. get_elem?_total (q ∷ ps) (roll % suc (length ps)) (omega arith))
      (λ positive.
        subst (λ o. (p : Pointer) × (drawn o ≡ some p)) (sym (intn_draws roll total positive))
          (or_else_total (walk (roll % total) (q ∷ ps)) last
            (get_elem?_total (q ∷ ps) (suc (length ps) - 1) (omega arith))))

pub other_than-Among :
    (a c : Pointer) (cs ps : List Pointer)
    → Among c cs
    → ((p : Pointer) → Among p ps → Among p cs)
    → Among (other_than a ps c) cs
unfolding other_than
other_than-Among a c cs [] hc sub = hc
other_than-Among a c cs (x ∷ xs) hc sub =
    if_cases (λ p. Among p cs) (x.0 == a.0)
      (λ _. other_than-Among a c cs xs hc (λ p m. sub p (inr m))) (λ _. sub x (inl refl))

two_choices-Among :
    (cs : List Pointer) (a c : Pointer) → Among a cs → Among c cs → Among (two_choices cs a c) cs
unfolding two_choices
two_choices-Among cs a c ha hc =
    let P : Pointer → Type 0 = λ p. Among p cs in
    let c' = if a.0 == c.0 then (if ltb 1 (length cs) then other_than a cs c else c) else c in
    let hc' : Among c' cs =
      if_cases P (a.0 == c.0)
        (λ _.
          if_cases P (ltb 1 (length cs)) (λ _. other_than-Among a c cs cs hc (λ p m. m)) (λ _. hc))
        (λ _. hc) in
    if_cases P (le64 a.1.in_flight c'.1.in_flight) (λ _. ha) (λ _. hc')

p2c-Among :
    (cs : List Pointer) (roll roll' : ℕ) (p : Pointer) → p2c cs roll roll' ≡ some p → Among p cs
unfolding p2c
p2c-Among cs roll roll' p h = elim (Option-cases (weighted_pick cs roll)) [
  | inl e ↦ ground arith
  | inr (a, e) ↦ elim (Option-cases (weighted_pick cs roll')) [
    | inl e' ↦ ground arith
    | inr (c, e') ↦ ground (
      arith,
      two_choices-Among cs a c (weighted_pick-Among cs roll a e)
          (weighted_pick-Among cs roll' c e'),
    )
  ]
]

pub p2c_total :
    (q : Pointer) (ps : List Pointer) (roll roll' : ℕ)
    → (p : Pointer) × (p2c (q ∷ ps) roll roll' ≡ some p)
unfolding p2c
p2c_total q ps roll roll' =
    let (a, e) = weighted_pick_total q ps roll in
    let (c, e') = weighted_pick_total q ps roll' in (two_choices (q ∷ ps) a c, ground arith)

rr_choice-Among :
    (idx : Int64) (cs : List Pointer) (p : Pointer) → rr_choice idx cs ≡ some p → Among p cs
unfolding rr_choice
rr_choice-Among idx cs p h =
    ground (arith, get_elem?-Among cs 0 p, get_elem?-Among cs (idx % length cs) p)

pub or_panic-picked :
    (o : Option Pointer) (idx : Int64) (p : Pointer) (idx' : Int64)
    → or_panic o idx ≡ picked p idx'
    → o ≡ some p
unfolding or_panic
or_panic-picked none idx p idx' h = cc
or_panic-picked (some q) idx p idx' h = ground arith

pub choose-Among :
    (rr : Bool) (cs : List Pointer) (idx : Int64) (roll roll' : ℕ) (p : Pointer) (idx' : Int64)
    → choose rr cs idx roll roll' ≡ picked p idx'
    → Among p cs
unfolding choose
choose-Among rr [] idx roll roll' p idx' h = cc
choose-Among true (c ∷ cs) idx roll roll' p idx' h =
    rr_choice-Among idx (c ∷ cs) p (or_panic-picked _ (add64 idx 1) p idx' h)
choose-Among false (c ∷ []) idx roll roll' p idx' h = ground arith
choose-Among false (c ∷ d ∷ cs) idx roll roll' p idx' h =
    p2c-Among (c ∷ d ∷ cs) roll roll' p
      (or_panic-picked (p2c (c ∷ d ∷ cs) roll roll') idx p idx' (ground arith))

pub get_elem?_of_PointsFrom :
    (bs : List Backend) (p : Pointer) → PointsFrom 0 bs p → get_elem? bs p.0 ≡ some p.1
get_elem?_of_PointsFrom bs p (j, e, g) = let same : p.0 ≡ j = omega arith in rw same g
