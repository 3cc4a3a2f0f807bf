-- ===== src/Router/Dispatch.antt =====
-- `Do`, `doOnce`, `classify` and `countingBody` of internal/router/router.go. What other goroutines
-- do to the pool between two steps of a request, and what the upstream answers, are arguments.
use velocity_gateway.Common.{
  ℕ, zero, suc, ◌+◌, ◌/◌, Bool, true, false, Text, codes, List, [], ◌∷◌, Option, none, some,
  if◌then◌else◌, ◌==◌, ltb,
}
use velocity_gateway.Common.Int64.{Int64, add64, is_nonpos}
use velocity_gateway.Router.Backend.{mark_failure, mark_success, enter, leave}
use velocity_gateway.Router.State.{
  Router, backend_errors, backend_retries, backend_latency, update, report, Probe, check_one,
}
use velocity_gateway.Router.Selection.{nothing, panics, picked, pick}

pub data Error : Type 0 where
  deadline_exceeded canceled : Error
  transport : Text → Error
  upstream_status : Text → ℕ → Text → Error
  no_healthy_backends : Error

unfoldable classify : Option Error → Text
classify none = codes "ok"
classify (some deadline_exceeded) = codes "timeout"
classify (some canceled) = codes "canceled"
classify (some _) = codes "error"

-- One action of another goroutine on the pool: a request begins, gives up or is marked failed on a
-- backend, a response body is closed, a probe returns, or a round-robin pick moves the index.
pub data Act : Type 0 where
  begins : ℕ → Act
  gives_up : ℕ → Act
  marks_failed : ℕ → ℕ → Act
  closes : ℕ → Text → Act
  probes : ℕ → Probe → Act
  advances : Act

-- The `onClose` of a response body: the backend is left, and marked as good.
unfoldable pub on_close : ℕ → Text → Router → Router
unfolding leave mark_success
on_close k name r = update k mark_success (report (backend_latency name) (update k leave r))

unfoldable pub act : Act → Router → Router
unfolding enter leave mark_failure on_close check_one
act (begins k) r = update k enter r
act (gives_up k) r = update k leave r
act (marks_failed k now) r = update k (mark_failure now) r
act (closes k name) r = on_close k name r
act (probes k p) r = check_one k p r
act advances r = record r { rr_idx = add64 r.rr_idx 1 }

unfoldable pub acts : List Act → Router → Router
unfolding act
acts [] r = r
acts (a ∷ rest) r = acts rest (act a r)

-- How the POST to the backend ends: no request could be built, no answer came, or a status with the
-- first 4096 bytes of the body.
pub data Upstream : Type 0 where
  unbuildable : Error → Upstream
  failed : Error → Upstream
  answered : ℕ → Text → Upstream

-- A response that is handed on, its body still open.
pub record Response : Type 0 where
  pub status : ℕ
  pub body : Text
  pub backend : ℕ

pub data Reply : Type 0 where
  response : Response → Reply
  error : Error → Reply

-- `doOnce` after `inFlight.Add(1)`, on the pool as it is when the upstream has answered.
unfoldable pub settle : ℕ → Text → Upstream → Router → Router × Reply
unfolding leave
settle k name (unbuildable e) r = (update k leave r, error e)
settle k name (failed e) r = (update k leave r, error e)
settle k name (answered status body) r =
    if status / 100 == 5
    then (update k leave r, error (upstream_status name status body))
    else (r, response (record { status = status; body = body; backend = k }))

-- What one attempt meets: actions of others before the pick and while the upstream works, the two
-- random numbers, the upstream's answer, and the clock at a failure.
pub record Attempt : Type 0 where
  pub before : List Act
  pub during : List Act
  pub roll : ℕ
  pub roll' : ℕ
  pub upstream : Upstream
  pub failed_at : ℕ

unfoldable pub do_once : ℕ → Text → Attempt → Router → Router × Reply
unfolding enter acts settle
do_once k name env r = settle k name env.upstream (acts env.during (update k enter r))

-- How `Do` ends: with a response and the name of the backend, with an error, or in a panic. The
-- local `tried` is kept beside the pool.
pub data Outcome : Type 0 where
  served : Response → Text → Outcome
  refused : Error → Outcome
  panicked : Outcome

pub record Done : Type 0 where
  pub router : Router
  pub tried : List Text
  pub outcome : Outcome

abbrev pub last_error : Option Error → Error
last_error none = no_healthy_backends
last_error (some e) = e

-- What follows a failed attempt: the error is counted, the backend marked, a retry announced.
unfoldable pub after_failure : ℕ → Text → ℕ → Error → Bool → Router → Router
unfolding mark_failure classify
after_failure k name now e more r =
    let marked = update k (mark_failure now) (report (backend_errors name (classify (some e))) r) in
    if more then report backend_retries marked else marked

-- The loop of `Do`, with `left` rounds to go at round `i`.
unfoldable pub do_loop : (ℕ → Attempt) → ℕ → ℕ → ℕ → List Text → Option Error → Router → Done
do_loop env attempts zero i tried last r = record {
  router = r;
  tried = tried;
  outcome = refused (last_error last);
}
do_loop env attempts (suc left) i tried last r =
    let r₁ = acts (env i).before r in
    elim (pick r₁ tried (env i).roll (env i).roll') [
      | nothing ↦ record { router = r₁; tried = tried; outcome = refused (last_error last) }
      | panics ↦ record { router = r₁; tried = tried; outcome = panicked }
      | picked (k, b) idx ↦
          let (r₂, reply) = do_once k b.name (env i) (record r₁ { rr_idx = idx }) in
          elim reply [
            | response resp ↦ record {
              router = r₂;
              tried = b.name ∷ tried;
              outcome = served resp b.name;
            }
            | error e ↦
                do_loop env attempts left (suc i) (b.name ∷ tried) (some e)
                  (after_failure k b.name (env i).failed_at e (ltb (i + 1) attempts) r₂)
          ]
    ]

abbrev pub attempts_of : Int64 → ℕ
attempts_of n = if is_nonpos n then 1 else n

unfoldable pub do_request : (ℕ → Attempt) → Router → Done
do_request env r =
    let attempts = attempts_of r.cfg.retry_attempts in do_loop env attempts attempts 0 [] none r

-- `countingBody`: whether it was closed. Closing it again does nothing.
unfoldable pub close_body : Bool → ℕ → Text → Router → Bool × Router
unfolding on_close
close_body true k name r = (true, r)
close_body false k name r = (true, on_close k name r)
