-- ===== src/Router/Choice.antt =====
-- What `pick` of internal/router/router.go returns.
use velocity_gateway.Common.{
  ℕ, suc, ◌%◌, ◌≡◌, refl, ◌≢◌, ◌↔◌, ◌⊎◌, codes, text_eq, inl, inr, Bool, true, false, Text,
  mem_text, List, [], ◌∷◌, Option, none, some, length, get_elem?, All, All-Among, get_elem?_total,
  if_cases, arith,
}
use velocity_gateway.Common.Int64.{Int64, IsNat64, is_neg}
use velocity_gateway.Router.Backend.{Backend}
use velocity_gateway.Router.State.{Router}
use velocity_gateway.Router.Selection.{
  Pointer, nothing, panics, picked, candidates, first_untried, rr_choice, or_panic, or_nothing, p2c,
  choose, pick,
}
use velocity_gateway.Router.Members.{
  get_elem?_of_PointsFrom, IsCandidate, candidates_sound, first_untried_sound, p2c_total,
  choose-Among,
}

-- A list of backends in which every one that is not excluded is down.
abbrev AllDown : List Text → List Backend → Type 0
AllDown exclude = All (λ b. (mem_text b.name exclude ≡ true) ⊎ (b.healthy ≡ false))

candidates_empty :
    (exclude : List Text) (i : ℕ) (bs : List Backend)
    → candidates exclude i bs ≡ []
    → AllDown exclude bs
unfolding candidates
candidates_empty exclude i [] h = tt
candidates_empty exclude i (b ∷ bs) h = ground (arith, candidates_empty exclude (suc i) bs)

-- What a picked pointer is: a backend of the pool that is not excluded, and a healthy one unless
-- every backend that is not excluded is down.
pub record IsSound (r : Router) (exclude : List Text) (p : Pointer) : Type 0 where
  pub in_pool : get_elem? r.backends p.0 ≡ some p.1
  pub fresh : mem_text p.1.name exclude ≡ false
  up_or_last_resort : (p.1.healthy ≡ true) ⊎ AllDown exclude r.backends

or_nothing-picked :
    (o : Option Pointer) (idx : Int64) (p : Pointer) (idx' : Int64)
    → or_nothing o idx ≡ picked p idx'
    → o ≡ some p
unfolding or_nothing
or_nothing-picked none idx p idx' h = cc
or_nothing-picked (some q) idx p idx' h = ground arith

pick_by_candidates :
    (r : Router) (exclude : List Text) (cs : List Pointer) (roll roll' : ℕ) (p : Pointer)
    (idx : Int64)
    → candidates exclude 0 r.backends ≡ cs
    → pick r exclude roll roll' ≡ picked p idx
    → IsSound r exclude p
unfolding pick
pick_by_candidates r exclude [] roll roll' p idx e h =
    let (q, fresh) =
      first_untried_sound exclude 0 r.backends p
        (or_nothing-picked (first_untried exclude 0 r.backends) r.rr_idx p idx (ground arith)) in
    record {
      in_pool = get_elem?_of_PointsFrom r.backends p q;
      fresh = fresh;
      up_or_last_resort = inr (candidates_empty exclude 0 r.backends e);
    }
pick_by_candidates r exclude (c ∷ cs) roll roll' p idx e h =
    let sound =
      All-Among (IsCandidate exclude 0 r.backends) p (candidates exclude 0 r.backends)
        (candidates_sound exclude 0 r.backends)
        (rw e (
          choose-Among (text_eq r.cfg.strategy (codes "round_robin")) (c ∷ cs) r.rr_idx roll roll' p
            idx (ground arith))) in
    record {
      in_pool = get_elem?_of_PointsFrom r.backends p sound.0;
      fresh = sound.1.0;
      up_or_last_resort = inl sound.1.1;
    }

-- A picked backend is in the pool, its name is not excluded, and it is healthy unless every backend
-- that is not excluded is down: whatever the strategy, the loads and the random numbers are.
pub pick-IsSound :
    (r : Router) (exclude : List Text) (roll roll' : ℕ) (p : Pointer) (idx : Int64)
    → pick r exclude roll roll' ≡ picked p idx
    → IsSound r exclude p
pick-IsSound r exclude roll roll' p idx h =
    pick_by_candidates r exclude (candidates exclude 0 r.backends) roll roll' p idx refl h

abbrev pub AllTried : List Text → List Backend → Type 0
AllTried exclude = All (λ b. mem_text b.name exclude ≡ true)

first_untried-none :
    (exclude : List Text) (i : ℕ) (bs : List Backend)
    → first_untried exclude i bs ≡ none
    → AllTried exclude bs
unfolding first_untried
first_untried-none exclude i [] h = tt
first_untried-none exclude i (b ∷ bs) h = ground (arith, first_untried-none exclude (suc i) bs)

no_candidates :
    (exclude : List Text) (i : ℕ) (bs : List Backend)
    → AllTried exclude bs
    → (candidates exclude i bs ≡ []) × (first_untried exclude i bs ≡ none)
unfolding candidates first_untried
no_candidates exclude i [] h = (refl, refl)
no_candidates exclude i (b ∷ bs) h = ground (arith, no_candidates exclude (suc i) bs h.1)

or_nothing-cases : (o : Option Pointer) (idx : Int64) → or_nothing o idx ≡ nothing → o ≡ none
unfolding or_nothing
or_nothing-cases none idx h = refl
or_nothing-cases (some q) idx h = cc

or_panic-ne-nothing : (o : Option Pointer) (idx : Int64) → or_panic o idx ≢ nothing
unfolding or_panic
or_panic-ne-nothing none idx h = cc
or_panic-ne-nothing (some q) idx h = cc

choose-ne-nothing :
    (rr : Bool) (c : Pointer) (cs : List Pointer) (idx : Int64) (roll roll' : ℕ)
    → choose rr (c ∷ cs) idx roll roll' ≢ nothing
unfolding choose
choose-ne-nothing true c cs idx roll roll' h = or_panic-ne-nothing _ _ h
choose-ne-nothing false c [] idx roll roll' h = ground arith
choose-ne-nothing false c (d ∷ cs) idx roll roll' h =
    or_panic-ne-nothing (p2c (c ∷ d ∷ cs) roll roll') idx (ground arith)

nothing_by_candidates :
    (r : Router) (exclude : List Text) (cs : List Pointer) (roll roll' : ℕ)
    → candidates exclude 0 r.backends ≡ cs
    → pick r exclude roll roll' ≡ nothing
    → AllTried exclude r.backends
unfolding pick
nothing_by_candidates r exclude [] roll roll' e h =
    first_untried-none exclude 0 r.backends
      (or_nothing-cases (first_untried exclude 0 r.backends) r.rr_idx (ground arith))
nothing_by_candidates r exclude (c ∷ cs) roll roll' e h = absurd (
    choose-ne-nothing (text_eq r.cfg.strategy (codes "round_robin")) c cs r.rr_idx roll roll'
      (ground arith))

nothing_of_AllTried :
    (r : Router) (exclude : List Text) (roll roll' : ℕ)
    → AllTried exclude r.backends
    → pick r exclude roll roll' ≡ nothing
unfolding pick or_nothing
nothing_of_AllTried r exclude roll roll' h = ground (arith, no_candidates exclude 0 r.backends h)

-- `pick` returns nil exactly when the name of every backend is excluded.
pub pick-nothing_iff :
    (r : Router) (exclude : List Text) (roll roll' : ℕ)
    → (pick r exclude roll roll' ≡ nothing) ↔ AllTried exclude r.backends
pick-nothing_iff r exclude roll roll' = (
  nothing_by_candidates r exclude (candidates exclude 0 r.backends) roll roll' refl,
  nothing_of_AllTried r exclude roll roll',
)

rr_choice_total :
    (idx : Int64) (c : Pointer) (cs : List Pointer)
    → IsNat64 idx
    → (p : Pointer) × (rr_choice idx (c ∷ cs) ≡ some p)
unfolding rr_choice
rr_choice_total idx c cs h =
    if_cases (λ o. (p : Pointer) × (o ≡ some p)) (is_neg idx) (λ e. absurd (ground arith))
      (λ _. get_elem?_total (c ∷ cs) (idx % suc (length cs)) (omega arith))

or_panic-ne-panics :
    (o : Option Pointer) (idx : Int64) → ((p : Pointer) × (o ≡ some p)) → or_panic o idx ≢ panics
unfolding or_panic
or_panic-ne-panics none idx (p, e) h = cc
or_panic-ne-panics (some q) idx (p, e) h = cc

choose-ne-panics :
    (rr : Bool) (c : Pointer) (cs : List Pointer) (idx : Int64) (roll roll' : ℕ)
    → IsNat64 idx ⊎ (rr ≡ false)
    → choose rr (c ∷ cs) idx roll roll' ≢ panics
unfolding choose
choose-ne-panics true c cs idx roll roll' (inl n) h =
    or_panic-ne-panics _ _ (rr_choice_total idx c cs n) h
choose-ne-panics true c cs idx roll roll' (inr n) h = cc
choose-ne-panics false c [] idx roll roll' n h = ground arith
choose-ne-panics false c (d ∷ cs) idx roll roll' n h =
    or_panic-ne-panics (p2c (c ∷ d ∷ cs) roll roll') idx (p2c_total c (d ∷ cs) roll roll')
      (ground arith)

panics_by_candidates :
    (r : Router) (exclude : List Text) (cs : List Pointer) (roll roll' : ℕ)
    → candidates exclude 0 r.backends ≡ cs
    → IsNat64 r.rr_idx ⊎ (text_eq r.cfg.strategy (codes "round_robin") ≡ false)
    → pick r exclude roll roll' ≢ panics
unfolding pick or_nothing
panics_by_candidates r exclude [] roll roll' e n h = ground arith
panics_by_candidates r exclude (c ∷ cs) roll roll' e n h =
    choose-ne-panics (text_eq r.cfg.strategy (codes "round_robin")) c cs r.rr_idx roll roll' n
      (ground arith)

-- `pick` does not panic, if the strategy is not "round_robin" or the round-robin index has not
-- overflowed.
pub pick-ne-panics :
    (r : Router) (exclude : List Text) (roll roll' : ℕ)
    → IsNat64 r.rr_idx ⊎ (text_eq r.cfg.strategy (codes "round_robin") ≡ false)
    → pick r exclude roll roll' ≢ panics
pick-ne-panics r exclude roll roll' =
    panics_by_candidates r exclude (candidates exclude 0 r.backends) roll roll' refl
