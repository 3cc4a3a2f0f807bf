-- ===== src/Router/InStep.antt =====
-- A turn of one call of `Do`, internal/router/router.go, and the in-flight counters.
use velocity_gateway.Common.{
  ℕ, zero, suc, ◌+◌, ◌%◌, ◌<◌, ◌≡◌, refl, Text, List, [], ◌∷◌, Option, length, if◌then◌else◌, ◌==◌,
  ltb, arith,
}
use velocity_gateway.Common.Int64.{modulus}
use velocity_gateway.Router.Backend.{enter}
use velocity_gateway.Router.State.{Router}
use velocity_gateway.Router.Selection.{Picked, nothing, panics, picked, pick}
use velocity_gateway.Router.Dispatch.{
  Error, Upstream, Reply, response, error, settle, attempts_of, act, closes,
}
use velocity_gateway.Router.Shape.{
  SameShape, names-modify, SameShape-trans, act-SameShape, settle-SameShape,
  after_failure-SameShape,
}
use velocity_gateway.Router.InFlight.{
  load_of, Moves, add-Moves, on_close-Moves, settle-Moves, after_failure-Moves, outgo,
}
use velocity_gateway.Router.Traffic.{
  Call, picking, waiting, reading, over, on_pick, turn_to_pick, on_reply, turn_to_answer,
  turn_to_close,
}

-- Whether a call is at a backend: waiting for it or reading what it sends.
abbrev pub at : ℕ → Call → ℕ
at k (picking left i tried last) = 0
at k (waiting left i tried j name) = if k == j then 1 else 0
at k (reading j name) = if k == j then 1 else 0
at k over = 0

abbrev pub busy : ℕ → List Call → ℕ
busy k [] = 0
busy k (c ∷ cs) = at k c + busy k cs

-- A turn of one call keeps the counter and the calls in step.
pub record InStep (k : ℕ) (r : Router) (c : Call) (p : Router × Call) : Type 0 where
  pub shape : SameShape r p.0
  pub moved :
      k < length r.backends
      → (load_of k p.0 + at k c) % modulus ≡ (load_of k r + at k p.1) % modulus

no_change : (k : ℕ) (r : Router) (c : Call) → InStep k r c (r, c)
no_change k r c = record {
  shape = record { same_cfg = refl; same_names = refl };
  moved = λ lt. refl;
}

on_pick-InStep :
    (k : ℕ) (p : Picked) (left i : ℕ) (tried : List Text) (last : Option Error) (r : Router)
    → InStep k r (picking (suc left) i tried last) (on_pick p left i tried r)
unfolding on_pick
on_pick-InStep k nothing left i tried last r = record {
  shape = record { same_cfg = refl; same_names = refl };
  moved = λ lt. refl;
}
on_pick-InStep k panics left i tried last r = record {
  shape = record { same_cfg = refl; same_names = refl };
  moved = λ lt. refl;
}
on_pick-InStep k (picked (j, b) idx) left i tried last r = record {
  shape = record { same_cfg = refl; same_names = names-modify r.backends j enter (λ _. refl) };
  moved = λ lt. omega (arith, add-Moves k j 1 enter r (λ _. refl) lt);
}

pub pick-InStep :
    (k roll roll' : ℕ) (c : Call) (r : Router) → InStep k r c (turn_to_pick roll roll' c r)
unfolding turn_to_pick
pick-InStep k roll roll' (picking zero i tried last) r = record {
  shape = record { same_cfg = refl; same_names = refl };
  moved = λ lt. refl;
}
pick-InStep k roll roll' (picking (suc left) i tried last) r =
    on_pick-InStep k (pick r tried roll roll') left i tried last r
pick-InStep k roll roll' (waiting left i tried j name) r =
    no_change k r (waiting left i tried j name)
pick-InStep k roll roll' (reading j name) r = no_change k r (reading j name)
pick-InStep k roll roll' over r = no_change k r over

reply-InStep :
    (k : ℕ) (reply : Reply) (now left i : ℕ) (tried : List Text) (j : ℕ) (name : Text)
    (r r' : Router)
    → SameShape r r'
    → (k < length r.backends → Moves k r (outgo k j reply) r')
    → InStep k r (waiting left i tried j name) (on_reply reply now left i tried j name r')
unfolding on_reply
reply-InStep k (response resp) now left i tried j name r r' shape m = record {
  shape = shape;
  moved = λ lt. omega (arith, m lt);
}
reply-InStep k (error e) now left i tried j name r r' shape m =
    let more = ltb (i + 1) (attempts_of r'.cfg.retry_attempts) in
    record {
      shape = SameShape-trans shape (after_failure-SameShape j name now e more r');
      moved = λ lt. ground (arith, m lt, after_failure-Moves k j name now e more r');
    }

pub answer-InStep :
    (k : ℕ) (u : Upstream) (now : ℕ) (c : Call) (r : Router)
    → InStep k r c (turn_to_answer u now c r)
unfolding turn_to_answer
answer-InStep k u now (waiting left i tried j name) r =
    reply-InStep k (settle j name u r).1 now left i tried j name r (settle j name u r).0
      (settle-SameShape j name u r) (λ lt. settle-Moves k j name u r lt)
answer-InStep k u now (picking left i tried last) r = no_change k r (picking left i tried last)
answer-InStep k u now (reading j name) r = no_change k r (reading j name)
answer-InStep k u now over r = no_change k r over

pub close-InStep : (k : ℕ) (c : Call) (r : Router) → InStep k r c (turn_to_close c r)
unfolding turn_to_close act
close-InStep k (reading j name) r = record {
  shape = act-SameShape (closes j name) r;
  moved = λ lt. ground (arith, on_close-Moves k j name r lt);
}
close-InStep k (picking left i tried last) r = no_change k r (picking left i tried last)
close-InStep k (waiting left i tried j name) r = no_change k r (waiting left i tried j name)
close-InStep k over r = no_change k r over
