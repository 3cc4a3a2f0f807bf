-- ===== src/Router/Busy.antt =====
-- The in-flight counters of internal/router while any number of calls of `Do` are under way.
use mathlib.Core.Option.{some-injective}
use velocity_gateway.Common.{
  ℕ, zero, suc, ◌+◌, ◌%◌, ◌≤◌, ◌<◌, ◌≡◌, refl, sym, ap, List, [], ◌∷◌, ◌++◌, Option, none, some,
  length, get_elem?, modify, arith, inl, inr, Option-cases, of_some,
}
use velocity_gateway.Common.Int64.{Int64, modulus}
use velocity_gateway.Config.Types as Config
use velocity_gateway.Router.Backend.{new_backend}
use velocity_gateway.Router.State.{Router, new_router, make_backends, all_up}
use velocity_gateway.Router.Dispatch.{act, probes}
use velocity_gateway.Router.Shape.{SameShape, act-SameShape}
use velocity_gateway.Router.InFlight.{load, load_of, in_range, act-Moves}
use velocity_gateway.Router.Traffic.{
  Call, picking, waiting, reading, over, new_call, turn_to_pick, turn_to_answer, turn_to_close,
  Traffic, with_call, Turn, arrives, picks, hears, closes_body, probed, take_turn, Reachable, fresh,
  after,
}
use velocity_gateway.Router.InStep.{at, busy, InStep, pick-InStep, answer-InStep, close-InStep}

-- The counter of a backend is the number of calls at it, as far as an int64 can tell.
abbrev Counts : ℕ → Traffic → Type 0
Counts k t = load_of k t.router % modulus ≡ busy k t.calls % modulus

busy-modify :
    (k j : ℕ) (cs : List Call) (c c' : Call)
    → get_elem? cs j ≡ some c
    → busy k (modify cs j (λ _. c')) + at k c ≡ busy k cs + at k c'
busy-modify k j [] c c' h = cc
busy-modify k zero (x ∷ cs) c c' h =
    let same : x ≡ c = some-injective _ _ h in let e = ap (at k) same in omega (arith, e)
busy-modify k (suc j) (x ∷ cs) c c' h = omega (arith, busy-modify k j cs c c' h)

busy-append : (k : ℕ) (cs ds : List Call) → busy k (cs ++ ds) ≡ busy k cs + busy k ds
busy-append k [] ds = omega arith
busy-append k (c ∷ cs) ds = omega (arith, busy-append k cs ds)

-- What every turn keeps.
record Keeps (k : ℕ) (t t' : Traffic) : Type 0 where
  shape : SameShape t.router t'.router
  counts : k < length t.router.backends → Counts k t → Counts k t'

with_call-Keeps :
    (k j : ℕ) (turn : Call → Router → Router × Call) (t : Traffic)
    → ((c : Call) (r : Router) → InStep k r c (turn c r))
    → Keeps k t (with_call j turn t)
unfolding with_call
with_call-Keeps k j turn t step = elim (Option-cases (get_elem? t.calls j)) [
  | inl e ↦
      rw (e, with_call)
        (record { shape = record { same_cfg = refl; same_names = refl }; counts = λ lt h. h })
  | inr (c, e) ↦
      let s = step c t.router in
      let b = busy-modify k j t.calls c (turn c t.router).1 e in
      rw (e, with_call)
        (record { shape = s.shape; counts = λ lt h. omega (arith, h, s.moved lt, b) })
]

take_turn-Keeps : (k : ℕ) (turn : Turn) (t : Traffic) → Keeps k t (take_turn turn t)
unfolding take_turn new_call act
take_turn-Keeps k arrives t = record {
  shape = record { same_cfg = refl; same_names = refl };
  counts = λ lt h. omega (arith, h, busy-append k t.calls (new_call t.router ∷ []));
}
take_turn-Keeps k (picks j roll roll') t =
    with_call-Keeps k j (turn_to_pick roll roll') t (pick-InStep k roll roll')
take_turn-Keeps k (hears j upstream now) t =
    with_call-Keeps k j (turn_to_answer upstream now) t (answer-InStep k upstream now)
take_turn-Keeps k (closes_body j) t = with_call-Keeps k j turn_to_close t (close-InStep k)
take_turn-Keeps k (probed j p) t = record {
  shape = act-SameShape (probes j p) t.router;
  counts = λ lt h. omega (arith, h, act-Moves k (probes j p) t.router lt);
}

load-make_backends :
    (k : ℕ) (timeout : Int64) (cs : List Config.Backend) → load k (make_backends timeout cs) ≡ 0
unfolding make_backends new_backend
load-make_backends k timeout [] = refl
load-make_backends zero timeout (c ∷ cs) = refl
load-make_backends (suc k) timeout (c ∷ cs) = load-make_backends k timeout cs

load-new_router :
    (k : ℕ) (cfg : Config.Router) (r : Router) → new_router cfg ≡ some r → load_of k r ≡ 0
unfolding new_router
load-new_router k cfg r h = by_backends cfg.backends h
  where
    made : List Config.Backend → Option Router
    made [] = none
    made (c ∷ cs) =
        let bs = make_backends cfg.request_timeout (c ∷ cs) in
        some (record { cfg = cfg; backends = bs; rr_idx = 0; metrics = all_up bs [] })

    by_backends : (cs : List Config.Backend) → made cs ≡ some r → load_of k r ≡ 0
    by_backends [] e = cc
    by_backends (c ∷ cs) e =
        of_some (λ (x : Router). load_of k x ≡ 0) e
          (load-make_backends k cfg.request_timeout (c ∷ cs))

in_range-back :
    (k : ℕ) (r r' : Router) → SameShape r r' → k < length r'.backends → k < length r.backends
in_range-back k r r' s =
    in_range k r' r (record { same_cfg = sym s.same_cfg; same_names = sym s.same_names })

Reachable-Counts :
    (cfg : Config.Router) (k : ℕ) (t : Traffic)
    → Reachable cfg t
    → k < length t.router.backends
    → Counts k t
Reachable-Counts cfg k t (fresh r h) lt = omega (arith, load-new_router k cfg r h)
Reachable-Counts cfg k t (after turn t₀ before) lt =
    let step = take_turn-Keeps k turn t₀ in
    let lt' = in_range-back k t₀.router t.router step.shape lt in
    step.counts lt' (Reachable-Counts cfg k t₀ before lt')

busy-length : (k : ℕ) (cs : List Call) → busy k cs ≤ length cs
busy-length k [] = omega arith
busy-length k (c ∷ cs) = omega (arith, busy-length k cs, at_most c)
  where
    at_most : (c : Call) → at k c ≤ 1
    at_most (picking left i tried last) = omega arith
    at_most (waiting left i tried j name) = ground arith
    at_most (reading j name) = ground arith
    at_most over = omega arith

-- However the calls of `Do`, the closing of bodies and the probes interleave after `New`, the in-flight
-- counter of each backend, as an int64, is the number of calls that wait for that backend or whose
-- response from it is still open, as long as there were fewer than 2^64 calls.
pub in_flight_exact :
    (cfg : Config.Router) (k : ℕ) (t : Traffic)
    → Reachable cfg t
    → k < length t.router.backends
    → length t.calls < modulus
    → load_of k t.router % modulus ≡ busy k t.calls
in_flight_exact cfg k t reached lt few =
    omega (arith, Reachable-Counts cfg k t reached lt, busy-length k t.calls)
