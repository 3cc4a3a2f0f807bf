-- ===== src/Router/Failover.antt =====
-- What `Do` of internal/router/router.go guarantees whatever the upstreams answer, the random numbers
-- are, and the other goroutines do between two steps.
use velocity_gateway.Common.{
  ℕ, zero, suc, ◌+◌, ◌-◌, ◌/◌, ◌≤◌, ◌≡◌, ◌⊎◌, inl, inr, true, false, Text, mem_text, List, [], ◌∷◌,
  Option, none, length, All, arith, ◌∙◌, ltb,
}
use velocity_gateway.Common.Int64.{Int64}
use velocity_gateway.Router.Backend.{Backend, enter}
use velocity_gateway.Router.State.{Router, update}
use velocity_gateway.Router.Choice.{pick-nothing_iff, AllTried}
use velocity_gateway.Router.Dispatch.{
  Error, Attempt, Upstream, error, Done, refused, acts, settle, do_once, do_request, attempts_of,
}
use velocity_gateway.Router.Loop.{Rounds, do_loop_induct, sent, ready, next_pool}
use velocity_gateway.Router.Shape.{
  names, SameShape, acts-SameShape, do_once-SameShape, after_failure-SameShape,
}

-- No name twice.
abbrev pub Distinct : List Text → Type 0
Distinct [] = Unit {0}
Distinct (t ∷ ts) = (mem_text t ts ≡ false) × Distinct ts

abbrev Bounds : ℕ → ℕ → List Text → Option Error → Router → Done → Type 0
Bounds left i tried last r d =
    Distinct tried → Distinct d.tried × (length d.tried ≤ length tried + left)

-- An upstream that did not do its work: no request, no answer, or a status 5xx.
abbrev IsBad : Upstream → Type 0
IsBad (Upstream.unbuildable e) = Unit {0}
IsBad (Upstream.failed e) = Unit {0}
IsBad (Upstream.answered status body) = status / 100 ≡ 5

settle-error-IsBad :
    (k : ℕ) (name : Text) (u : Upstream) (r : Router) (e : Error)
    → (settle k name u r).1 ≡ error e
    → IsBad u
unfolding settle
settle-error-IsBad k name (Upstream.unbuildable x) r e h = tt
settle-error-IsBad k name (Upstream.failed x) r e h = tt
settle-error-IsBad k name (Upstream.answered status body) r e h = ground arith

sent-error-IsBad :
    (env : ℕ → Attempt) (i : ℕ) (r : Router) (k : ℕ) (b : Backend) (idx : Int64) (e : Error)
    → (sent env i r k b idx).1 ≡ error e
    → IsBad (env i).upstream
unfolding do_once
sent-error-IsBad env i r k b idx e h =
    settle-error-IsBad k b.name (env i).upstream
      (acts (env i).during (update k enter (record (ready env i r) { rr_idx = idx }))) e h

abbrev AllNamed : List Text → List Text → Type 0
AllNamed tried = All (λ n. mem_text n tried ≡ true)

AllNamed-of_AllTried :
    (tried : List Text) (bs : List Backend) → AllTried tried bs → AllNamed tried (names bs)
AllNamed-of_AllTried tried [] h = tt
AllNamed-of_AllTried tried (b ∷ bs) h = (h.0, AllNamed-of_AllTried tried bs h.1)

-- A round changes neither the configuration nor the names.
pub round-SameShape :
    (env : ℕ → Attempt) (attempts i : ℕ) (r : Router) (k : ℕ) (b : Backend) (idx : Int64)
    (e : Error)
    → SameShape r (next_pool env attempts i k b e (sent env i r k b idx).0)
round-SameShape env attempts i r k b idx e =
    let before = acts-SameShape (env i).before r in
    let here = do_once-SameShape k b.name (env i) (record (ready env i r) { rr_idx = idx }) in
    let after =
      after_failure-SameShape k b.name (env i).failed_at e (ltb (i + 1) attempts)
        (sent env i r k b idx).0 in
    record {
      same_cfg = after.same_cfg ∙ here.same_cfg ∙ before.same_cfg;
      same_names = after.same_names ∙ here.same_names ∙ before.same_names;
    }

-- The upstreams of `n` rounds from round `i` on failed.
abbrev AllBad : (ℕ → Attempt) → ℕ → ℕ → Type 0
AllBad env i zero = Unit {0}
AllBad env i (suc n) = IsBad (env i).upstream × AllBad env (suc i) n

-- Why a loop that began with `tried` ended in a refusal.
pub record IsRefusal (env : ℕ → Attempt) (left i : ℕ) (tried : List Text) (ns : List Text)
    (d : Done) : Type 0 where
  pub grown : length tried ≤ length d.tried
  all_bad : AllBad env i (length d.tried - length tried)
  spent_or_tried : (length d.tried ≡ length tried + left) ⊎ AllNamed d.tried ns

abbrev Refusals : (ℕ → Attempt) → ℕ → ℕ → List Text → Option Error → Router → Done → Type 0
Refusals env left i tried last r d =
    (e : Error) → d.outcome ≡ refused e → IsRefusal env left i tried (names r.backends) d

AllBad-none : (env : ℕ → Attempt) (i n : ℕ) → AllBad env i (n - n)
AllBad-none env i n = let z : n - n ≡ 0 = omega arith in rw z tt

refusals : (env : ℕ → Attempt) (attempts : ℕ) → Rounds env attempts (Refusals env)
refusals env attempts = record {
  spent = λ i tried last r e h. record {
    grown = omega arith;
    all_bad = AllBad-none env i (length tried);
    spent_or_tried = inl (omega arith);
  };
  exhausted = λ left i tried last r p e h. record {
    grown = omega arith;
    all_bad = AllBad-none env i (length tried);
    spent_or_tried = inr (
        rw (← (acts-SameShape (env i).before r).same_names) (
          AllNamed-of_AllTried tried (ready env i r).backends
            ((pick-nothing_iff (ready env i r) tried (env i).roll (env i).roll').0 p)));
  };
  panicking = λ left i tried last r p e h. absurd (cc);
  serving = λ left i tried last r k b idx resp p s e h. absurd (cc);
  retrying = λ left i tried last r k b idx x d p s ih e h.
      let sub = ih e h in
      let more : length d.tried - length tried ≡ suc (length d.tried - suc (length tried)) =
        omega (arith, sub.grown) in
      record {
        grown = omega (arith, sub.grown);
        all_bad = rw more (sent-error-IsBad env i r k b idx x s, sub.all_bad);
        spent_or_tried = elim sub.spent_or_tried [
          | inl l ↦ inl (omega arith)
          | inr a ↦ inr (rw (← (round-SameShape env attempts i r k b idx x).same_names) a)
        ];
      };
}

-- If `Do` returns an error, then every upstream that it tried failed: no request could be built, no
-- answer came, or the status was 5xx. And it did not stop early: it made as many attempts as
-- `RetryAttempts` allows, or it tried every backend name of the pool.
pub do_request-refused :
    (env : ℕ → Attempt) (r : Router) (e : Error)
    → (do_request env r).outcome ≡ refused e
    → IsRefusal env (attempts_of r.cfg.retry_attempts) 0 [] (names r.backends) (do_request env r)
unfolding do_request
do_request-refused env r e =
    let n = attempts_of r.cfg.retry_attempts in
    do_loop_induct env n (Refusals env) (refusals env n) n 0 [] none r e
