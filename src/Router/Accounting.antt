-- ===== src/Router/Accounting.antt =====
-- `Do` of internal/router/router.go leaves no request counted in flight but the one that it returns,
-- and closing the body of that one takes it off.
use velocity_gateway.Common.{
  ℕ, ◌+◌, ◌%◌, ◌<◌, ◌≡◌, refl, false, Text, List, [], Option, none, length, if◌then◌else◌, ◌==◌,
  ltb, arith, ◌∙◌,
}
use velocity_gateway.Common.Int64.{Int64, modulus, minus_one}
use velocity_gateway.Router.Backend.{Backend}
use velocity_gateway.Router.State.{Router}
use velocity_gateway.Router.Dispatch.{
  Error, Attempt, Response, error, response, Done, Outcome, served, refused, panicked, do_request,
  attempts_of, close_body,
}
use velocity_gateway.Router.Loop.{Rounds, do_loop_induct, sent, ready, next_pool}
use velocity_gateway.Router.Shape.{SameShape, acts-SameShape, do_once-SameShape, SameShape-trans}
use velocity_gateway.Router.Failover.{round-SameShape}
use velocity_gateway.Router.Service.{sent_response}
use velocity_gateway.Router.InFlight.{
  net, Moves, outgo, in_range, acts-Moves, do_once-Moves, after_failure-Moves, on_close-Moves,
}

-- The request that an outcome leaves open at backend `k`.
abbrev pub held : ℕ → Outcome → Int64
held k (served resp name) = if k == resp.backend then 1 else 0
held k (refused e) = 0
held k panicked = 0

module _ (k : ℕ) (env : ℕ → Attempt)
    (quiet : (i : ℕ) → (net k (env i).before ≡ 0) × (net k (env i).during ≡ 0)) where
  ready-Moves : (i : ℕ) (r : Router) → k < length r.backends → Moves k r 0 (ready env i r)
  ready-Moves i r lt = omega (arith, acts-Moves k (env i).before r lt, (quiet i).0)

  sent-Moves :
      (i : ℕ) (r : Router) (j : ℕ) (b : Backend) (idx : Int64)
      → k < length r.backends
      → Moves k r
          ((if k == j then 1 else 0) + outgo k j (sent env i r j b idx).1)
          (sent env i r j b idx).0
  sent-Moves i r j b idx lt =
      let lt' = in_range k r (ready env i r) (acts-SameShape (env i).before r) lt in
      let a = ready-Moves i r lt in
      let c =
        do_once-Moves k j b.name (env i) (record (ready env i r) { rr_idx = idx }) lt'
          (quiet i).1 in
      omega (arith, a, c)

  served-Moves :
      (r : Router) (j : ℕ) (b : Backend) (idx : Int64) (i : ℕ) (resp : Response)
      → (sent env i r j b idx).1 ≡ response resp
      → resp.backend ≡ j
      → Moves k r
          ((if k == j then 1 else 0) + outgo k j (sent env i r j b idx).1)
          (sent env i r j b idx).0
      → Moves k r (if k == resp.backend then 1 else 0) (sent env i r j b idx).0
  served-Moves r j b idx i resp s there m =
      let none_taken : outgo k j (sent env i r j b idx).1 ≡ 0 = rw s in
      rw there (omega (arith, m, none_taken))

  refused-Moves :
      (r : Router) (j : ℕ) (b : Backend) (idx : Int64) (i : ℕ) (x : Error)
      → (sent env i r j b idx).1 ≡ error x
      → Moves k r
          ((if k == j then 1 else 0) + outgo k j (sent env i r j b idx).1)
          (sent env i r j b idx).0
      → Moves k r 0 (sent env i r j b idx).0
  refused-Moves r j b idx i x s m =
      let taken : outgo k j (sent env i r j b idx).1 ≡ (if k == j then minus_one else 0) = rw s in
      let zero_sum : ((if k == j then 1 else 0) + (if k == j then minus_one else 0)) % modulus ≡ 0 =
        ground arith in
      omega (arith, m, taken, zero_sum)

  abbrev Accounts : ℕ → ℕ → List Text → Option Error → Router → Done → Type 0
  Accounts left i tried last r d = k < length r.backends → Moves k r (held k d.outcome) d.router

  accounts : (attempts : ℕ) → Rounds env attempts Accounts
  accounts attempts = record {
    spent = λ i tried last r lt. omega arith;
    exhausted = λ left i tried last r p lt. ready-Moves i r lt;
    panicking = λ left i tried last r p lt. ready-Moves i r lt;
    serving = λ left i tried last r j b idx resp p s lt.
        let m = sent-Moves i r j b idx lt in
        let there = (sent_response env i r j b idx resp s).0 in
        served-Moves r j b idx i resp s there m;
    retrying = λ left i tried last r j b idx x d p s ih lt.
        let pool = next_pool env attempts i j b x (sent env i r j b idx).0 in
        let m = sent-Moves i r j b idx lt in
        let f =
          after_failure-Moves k j b.name (env i).failed_at x (ltb (i + 1) attempts)
            (sent env i r j b idx).0 in
        let rest = ih (in_range k r pool (round-SameShape env attempts i r j b idx x) lt) in
        let back = refused-Moves r j b idx i x s m in omega (arith, f, rest, back);
  }

-- While the actions of the other goroutines balance on backend `k`, in the sense that they add up to
-- 0 before each pick and while each upstream works, `Do` moves the in-flight counter of `k` by 1 if
-- it returns a response of `k`, and not at all otherwise: an error leaves nothing counted.
pub do_request-Moves :
    (k : ℕ) (env : ℕ → Attempt) (r : Router)
    → ((i : ℕ) → (net k (env i).before ≡ 0) × (net k (env i).during ≡ 0))
    → k < length r.backends
    → Moves k r (held k (do_request env r).outcome) (do_request env r).router
unfolding do_request
do_request-Moves k env r quiet =
    let n = attempts_of r.cfg.retry_attempts in
    do_loop_induct env n (Accounts k env quiet) (accounts k env quiet n) n 0 [] none r

abbrev Shapes : ℕ → ℕ → List Text → Option Error → Router → Done → Type 0
Shapes left i tried last r d = SameShape r d.router

shapes : (env : ℕ → Attempt) (attempts : ℕ) → Rounds env attempts Shapes
shapes env attempts = record {
  spent = λ i tried last r. record { same_cfg = refl; same_names = refl };
  exhausted = λ left i tried last r p. acts-SameShape (env i).before r;
  panicking = λ left i tried last r p. acts-SameShape (env i).before r;
  serving = λ left i tried last r k b idx resp p s.
      let before = acts-SameShape (env i).before r in
      let here = do_once-SameShape k b.name (env i) (record (ready env i r) { rr_idx = idx }) in
      record {
        same_cfg = here.same_cfg ∙ before.same_cfg;
        same_names = here.same_names ∙ before.same_names;
      };
  retrying = λ left i tried last r k b idx x d p s ih.
      SameShape-trans (round-SameShape env attempts i r k b idx x) ih;
}

-- Under the same balance, closing the body of the response that `Do` returned brings the counter of
-- every backend back to what it was before `Do`, and closing it a second time changes nothing.
do_request-close_body :
    (k : ℕ) (env : ℕ → Attempt) (r : Router) (resp : Response) (name : Text)
    → ((i : ℕ) → (net k (env i).before ≡ 0) × (net k (env i).during ≡ 0))
    → k < length r.backends
    → (do_request env r).outcome ≡ served resp name
    → let once = close_body false resp.backend name (do_request env r).router in
      Moves k r 0 once.1 × (close_body once.0 resp.backend name once.1 ≡ once)
unfolding close_body do_request
do_request-close_body k env r resp name quiet lt h =
    let n = attempts_of r.cfg.retry_attempts in
    let d = do_request env r in
    let shape = do_loop_induct env n Shapes (shapes env n) n 0 [] none r in
    let opened = do_request-Moves k env r quiet lt in
    let held_one : held k d.outcome ≡ (if k == resp.backend then 1 else 0) = rw h in
    let closed = on_close-Moves k resp.backend name d.router (in_range k r d.router shape lt) in
    let zero_sum : ((if k == resp.backend then 1 else 0)
            + (if k == resp.backend then minus_one else 0))
          % modulus
        ≡ 0 =
      ground arith in
    (omega (arith, opened, held_one, closed, zero_sum), refl)
