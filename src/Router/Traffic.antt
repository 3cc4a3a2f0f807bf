-- ===== src/Router/Traffic.antt =====
-- Any number of calls of `Do` of internal/router/router.go at once: each is at one point of its loop, and
-- they and the probes take turns in any order. A turn is what the code does between two waits.
use velocity_gateway.Common.{
  ℕ, zero, suc, ◌+◌, Text, List, [], ◌∷◌, ◌++◌, Option, none, some, get_elem?, modify, ltb, ◌≡◌,
}
use velocity_gateway.Config.Types as Config
use velocity_gateway.Router.Backend.{enter}
use velocity_gateway.Router.State.{Router, new_router, update, Probe, check_one}
use velocity_gateway.Router.Selection.{Picked, nothing, panics, picked, pick}
use velocity_gateway.Router.Dispatch.{
  Error, Upstream, Reply, response, error, settle, after_failure, on_close, attempts_of,
}

-- Where a call stands: before a pick, with the rounds left, the round, the names tried and the last
-- error; waiting for an upstream; returned with its response's body still open; or over.
pub data Call : Type 0 where
  picking : ℕ → ℕ → List Text → Option Error → Call
  waiting : ℕ → ℕ → List Text → ℕ → Text → Call
  reading : ℕ → Text → Call
  over : Call

unfoldable pub new_call : Router → Call
new_call r = picking (attempts_of r.cfg.retry_attempts) 0 [] none

-- `inFlight.Add(1)` on the backend that was picked.
unfoldable pub on_pick : Picked → ℕ → ℕ → List Text → Router → Router × Call
unfolding enter
on_pick nothing left i tried r = (r, over)
on_pick panics left i tried r = (r, over)
on_pick (picked (k, b) idx) left i tried r =
    (update k enter (record r { rr_idx = idx }), waiting left i (b.name ∷ tried) k b.name)

unfoldable pub turn_to_pick : ℕ → ℕ → Call → Router → Router × Call
unfolding on_pick pick
turn_to_pick roll roll' (picking zero i tried last) r = (r, over)
turn_to_pick roll roll' (picking (suc left) i tried last) r =
    on_pick (pick r tried roll roll') left i tried r
turn_to_pick roll roll' c r = (r, c)

unfoldable pub on_reply : Reply → ℕ → ℕ → ℕ → List Text → ℕ → Text → Router → Router × Call
unfolding after_failure
on_reply (response resp) now left i tried k name r = (r, reading k name)
on_reply (error e) now left i tried k name r = (
  after_failure k name now e (ltb (i + 1) (attempts_of r.cfg.retry_attempts)) r,
  picking left (suc i) tried (some e),
)

unfoldable pub turn_to_answer : Upstream → ℕ → Call → Router → Router × Call
unfolding settle on_reply
turn_to_answer upstream now (waiting left i tried k name) r =
    let (r', reply) = settle k name upstream r in on_reply reply now left i tried k name r'
turn_to_answer upstream now c r = (r, c)

-- Closing a body twice does nothing the second time.
unfoldable pub turn_to_close : Call → Router → Router × Call
unfolding on_close
turn_to_close (reading k name) r = (on_close k name r, over)
turn_to_close c r = (r, c)

pub record Traffic : Type 0 where
  pub router : Router
  pub calls : List Call

unfoldable pub with_call : ℕ → (Call → Router → Router × Call) → Traffic → Traffic
with_call j turn t = elim (get_elem? t.calls j) [
  | none ↦ t
  | some c ↦
      let (r, c') = turn c t.router in record { router = r; calls = modify t.calls j (λ _. c') }
]

-- A turn: a call arrives, the call at an index picks, hears of its upstream or closes its body, or a
-- probe returns.
pub data Turn : Type 0 where
  arrives : Turn
  picks : ℕ → ℕ → ℕ → Turn
  hears : ℕ → Upstream → ℕ → Turn
  closes_body : ℕ → Turn
  probed : ℕ → Probe → Turn

unfoldable pub take_turn : Turn → Traffic → Traffic
unfolding new_call with_call turn_to_pick turn_to_answer turn_to_close check_one
take_turn arrives t = record t { calls = t.calls ++ (new_call t.router ∷ []) }
take_turn (picks j roll roll') t = with_call j (turn_to_pick roll roll') t
take_turn (hears j upstream now) t = with_call j (turn_to_answer upstream now) t
take_turn (closes_body j) t = with_call j turn_to_close t
take_turn (probed k p) t = record t { router = check_one k p t.router }

-- What turns lead to from a router that `New` has made.
pub data Reachable (cfg : Config.Router) : Traffic → Type 0 where
  fresh : (r : Router) → new_router cfg ≡ some r → Reachable cfg (record { router = r; calls = [] })
  after : (turn : Turn) (t : Traffic) → Reachable cfg t → Reachable cfg (take_turn turn t)
