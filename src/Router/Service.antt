-- ===== src/Router/Service.antt =====
-- What a response that `Do` of internal/router/router.go returns is, and that `Do` does not panic.
use velocity_gateway.Common.{
  ℕ, zero, suc, ◌/◌, ◌≡◌, ◌≢◌, inr, false, Text, text_eq, List, [], ◌∷◌, Option, none, some,
  get_elem?, arith, ◌==◌, codes,
}
use velocity_gateway.Common.Int64.{Int64}
use velocity_gateway.Router.Backend.{Backend, enter}
use velocity_gateway.Router.State.{Router, update}
use velocity_gateway.Router.Choice.{pick-IsSound, pick-ne-panics}
use velocity_gateway.Router.Dispatch.{
  Error, Attempt, Upstream, Response, response, Done, served, panicked, acts, settle, do_once,
  do_request, attempts_of,
}
use velocity_gateway.Router.Loop.{Rounds, do_loop_induct, sent, ready}
use velocity_gateway.Router.Shape.{names, acts-SameShape}
use velocity_gateway.Router.Failover.{round-SameShape}

-- A response that `Do` returns: its status is not 5xx, it came from the backend whose name is
-- returned, and that name was the last to be tried.
pub record IsServed (ns : List Text) (resp : Response) (name : Text) (d : Done) : Type 0 where
  good_status : (resp.status / 100 == 5) ≡ false
  at_backend : get_elem? ns resp.backend ≡ some name
  tried_last : (ts : List Text) × (d.tried ≡ name ∷ ts)

abbrev Services : ℕ → ℕ → List Text → Option Error → Router → Done → Type 0
Services left i tried last r d =
    (resp : Response) (name : Text)
    → d.outcome ≡ served resp name
    → IsServed (names r.backends) resp name d

get_elem?-names :
    (bs : List Backend) (k : ℕ) (b : Backend)
    → get_elem? bs k ≡ some b
    → get_elem? (names bs) k ≡ some b.name
get_elem?-names [] k b h = cc
get_elem?-names (x ∷ bs) zero b h = ground arith
get_elem?-names (x ∷ bs) (suc k) b h = get_elem?-names bs k b h

settle_response :
    (k : ℕ) (name : Text) (u : Upstream) (r : Router) (resp : Response)
    → (settle k name u r).1 ≡ response resp
    → (resp.backend ≡ k) × ((resp.status / 100 == 5) ≡ false)
unfolding settle
settle_response k name (Upstream.unbuildable x) r resp h = absurd (cc)
settle_response k name (Upstream.failed x) r resp h = absurd (cc)
settle_response k name (Upstream.answered status body) r resp h = ground arith

pub sent_response :
    (env : ℕ → Attempt) (i : ℕ) (r : Router) (k : ℕ) (b : Backend) (idx : Int64) (resp : Response)
    → (sent env i r k b idx).1 ≡ response resp
    → (resp.backend ≡ k) × ((resp.status / 100 == 5) ≡ false)
unfolding do_once
sent_response env i r k b idx resp h =
    settle_response k b.name (env i).upstream
      (acts (env i).during (update k enter (record (ready env i r) { rr_idx = idx }))) resp h

services : (env : ℕ → Attempt) (attempts : ℕ) → Rounds env attempts Services
services env attempts = record {
  spent = λ i tried last r resp name h. absurd (cc);
  exhausted = λ left i tried last r p resp name h. absurd (cc);
  panicking = λ left i tried last r p resp name h. absurd (cc);
  serving = λ left i tried last r k b idx resp p s resp' name h.
      let facts = sent_response env i r k b idx resp s in
      let same : (resp ≡ resp') × (b.name ≡ name) = (ground arith, ground arith) in
      let there =
        get_elem?-names (ready env i r).backends k b
          (pick-IsSound (ready env i r) tried (env i).roll (env i).roll' (k, b) idx p).in_pool in
      record {
        good_status = rw (← same.0) facts.1;
        at_backend =
            rw (← same.0, ← same.1, facts.0, ← (acts-SameShape (env i).before r).same_names) there;
        tried_last = (tried, rw same.1);
      };
  retrying = λ left i tried last r k b idx x d p s ih resp name h.
      let sub = ih resp name h in
      record {
        good_status = sub.good_status;
        at_backend = rw (← (round-SameShape env attempts i r k b idx x).same_names) sub.at_backend;
        tried_last = sub.tried_last;
      };
}

-- A response that `Do` returns has no status 5xx, and comes from the backend of the pool whose name
-- is returned, which was tried last.
pub do_request-served :
    (env : ℕ → Attempt) (r : Router) (resp : Response) (name : Text)
    → (do_request env r).outcome ≡ served resp name
    → IsServed (names r.backends) resp name (do_request env r)
unfolding do_request
do_request-served env r =
    let n = attempts_of r.cfg.retry_attempts in
    do_loop_induct env n Services (services env n) n 0 [] none r

abbrev Answers : ℕ → ℕ → List Text → Option Error → Router → Done → Type 0
Answers left i tried last r d =
    text_eq r.cfg.strategy (codes "round_robin") ≡ false → d.outcome ≢ panicked

answers : (env : ℕ → Attempt) (attempts : ℕ) → Rounds env attempts Answers
answers env attempts = record {
  spent = λ i tried last r s h. cc;
  exhausted = λ left i tried last r p s h. cc;
  panicking = λ left i tried last r p s h.
      pick-ne-panics (ready env i r) tried (env i).roll (env i).roll'
        (inr (rw (acts-SameShape (env i).before r).same_cfg s)) p;
  serving = λ left i tried last r k b idx resp p s n h. cc;
  retrying = λ left i tried last r k b idx x d p s ih n.
      ih (rw (round-SameShape env attempts i r k b idx x).same_cfg n);
}

-- With any strategy but "round_robin", `Do` does not panic: it returns a response or an error.
pub do_request-ne-panicked :
    (env : ℕ → Attempt) (r : Router)
    → text_eq r.cfg.strategy (codes "round_robin") ≡ false
    → (do_request env r).outcome ≢ panicked
unfolding do_request
do_request-ne-panicked env r =
    let n = attempts_of r.cfg.retry_attempts in
    do_loop_induct env n Answers (answers env n) n 0 [] none r
