-- ===== src/Router/Loop.antt =====
-- An induction rule for the loop of `Do` in internal/router/router.go.
use velocity_gateway.Common.{ℕ, zero, suc, ◌+◌, ◌≡◌, refl, Text, List, ◌∷◌, Option, some, ltb}
use velocity_gateway.Common.Int64.{Int64}
use velocity_gateway.Router.Backend.{Backend}
use velocity_gateway.Router.State.{Router}
use velocity_gateway.Router.Selection.{Picked, nothing, panics, picked, pick}
use velocity_gateway.Router.Dispatch.{
  Error, Attempt, Response, Reply, response, error, Done, refused, served, panicked, last_error,
  acts, do_once, after_failure, do_loop,
}

-- The state in which round `i` picks, and the pick.
abbrev pub ready : (ℕ → Attempt) → ℕ → Router → Router
ready env i r = acts (env i).before r

abbrev pub chosen : (ℕ → Attempt) → ℕ → List Text → Router → Picked
chosen env i tried r = pick (ready env i r) tried (env i).roll (env i).roll'

abbrev pub sent : (ℕ → Attempt) → ℕ → Router → ℕ → Backend → Int64 → Router × Reply
sent env i r k b idx = do_once k b.name (env i) (record (ready env i r) { rr_idx = idx })

abbrev pub stopped : Router → List Text → Option Error → Done
stopped r tried last = record { router = r; tried = tried; outcome = refused (last_error last) }

abbrev pub next_pool : (ℕ → Attempt) → ℕ → ℕ → ℕ → Backend → Error → Router → Router
next_pool env attempts i k b e r =
    after_failure k b.name (env i).failed_at e (ltb (i + 1) attempts) r

-- What each way to end or to go on needs for a statement `P` about the loop's result. `P` may speak
-- of the rounds left, the round, the names tried, the last error and the pool at the start.
pub record Rounds (env : ℕ → Attempt) (attempts : ℕ)
    (P : ℕ → ℕ → List Text → Option Error → Router → Done → Type 0) : Type 0 where
  pub spent :
      (i : ℕ) (tried : List Text) (last : Option Error) (r : Router)
      → P zero i tried last r (stopped r tried last)
  pub exhausted :
      (left i : ℕ) (tried : List Text) (last : Option Error) (r : Router)
      → chosen env i tried r ≡ nothing
      → P (suc left) i tried last r (stopped (ready env i r) tried last)
  pub panicking :
      (left i : ℕ) (tried : List Text) (last : Option Error) (r : Router)
      → chosen env i tried r ≡ panics
      → P
          (suc left)
          i
          tried
          last
          r
          (record { router = ready env i r; tried = tried; outcome = panicked })
  pub serving :
      (left i : ℕ) (tried : List Text) (last : Option Error) (r : Router) (k : ℕ) (b : Backend)
      (idx : Int64) (resp : Response)
      → chosen env i tried r ≡ picked (k, b) idx
      → (sent env i r k b idx).1 ≡ response resp
      → P (suc left) i tried last r (record {
        router = (sent env i r k b idx).0;
        tried = b.name ∷ tried;
        outcome = served resp b.name;
      })
  pub retrying :
      (left i : ℕ) (tried : List Text) (last : Option Error) (r : Router) (k : ℕ) (b : Backend)
      (idx : Int64) (e : Error) (d : Done)
      → chosen env i tried r ≡ picked (k, b) idx
      → (sent env i r k b idx).1 ≡ error e
      → P left
          (suc i)
          (b.name ∷ tried)
          (some e)
          (next_pool env attempts i k b e (sent env i r k b idx).0)
          d
      → P (suc left) i tried last r d

module _ (env : ℕ → Attempt) (attempts : ℕ)
    (P : ℕ → ℕ → List Text → Option Error → Router → Done → Type 0)
    (rounds : Rounds env attempts P) where
  abbrev Holds : ℕ → ℕ → List Text → Option Error → Router → Type 0
  Holds left i tried last r = P left i tried last r (do_loop env attempts left i tried last r)

  -- One round, with the rule for the rounds that follow it.
  round_by_reply :
      (left i : ℕ) (tried : List Text) (last : Option Error) (r : Router) (k : ℕ) (b : Backend)
      (idx : Int64) (reply : Reply)
      → ((tried' : List Text) (last' : Option Error) (r' : Router)
          → Holds left (suc i) tried' last' r')
      → chosen env i tried r ≡ picked (k, b) idx
      → (sent env i r k b idx).1 ≡ reply
      → Holds (suc left) i tried last r
  unfolding do_loop
  round_by_reply left i tried last r k b idx (response resp) ih e s =
      rw (e, do_loop) (rw (s, do_loop) (rounds.serving left i tried last r k b idx resp e s))
  round_by_reply left i tried last r k b idx (error x) ih e s =
      rw (e, do_loop)
        (rw (s, do_loop)
          (rounds.retrying left i tried last r k b idx x _ e s (
            ih (b.name ∷ tried) (some x)
              (next_pool env attempts i k b x (sent env i r k b idx).0))))

  round_by_pick :
      (left i : ℕ) (tried : List Text) (last : Option Error) (r : Router) (q : Picked)
      → ((tried' : List Text) (last' : Option Error) (r' : Router)
          → Holds left (suc i) tried' last' r')
      → chosen env i tried r ≡ q
      → Holds (suc left) i tried last r
  unfolding do_loop
  round_by_pick left i tried last r nothing ih e =
      rw (e, do_loop) (rounds.exhausted left i tried last r e)
  round_by_pick left i tried last r panics ih e =
      rw (e, do_loop) (rounds.panicking left i tried last r e)
  round_by_pick left i tried last r (picked (k, b) idx) ih e =
      round_by_reply left i tried last r k b idx (sent env i r k b idx).1 ih e refl

  pub do_loop_induct :
      (left i : ℕ) (tried : List Text) (last : Option Error) (r : Router)
      → Holds left i tried last r
  unfolding do_loop
  do_loop_induct zero i tried last r = rounds.spent i tried last r
  do_loop_induct (suc left) i tried last r =
      round_by_pick left i tried last r (chosen env i tried r) (do_loop_induct left (suc i)) refl
