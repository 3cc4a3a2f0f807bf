-- ===== src/Router/State.antt =====
-- The Router struct of internal/router/router.go, its constructor, and the health bookkeeping of
-- internal/router/health.go. A `*Backend` is an index into `backends`. The Prometheus calls are a
-- log of what was reported, newest first.
use velocity_gateway.Common.{
  ℕ, Bool, true, false, ◌&&◌, Text, codes, List, [], ◌∷◌, Option, none, some, modify, get_elem?,
  if◌then◌else◌, ◌==◌, ◌/◌,
}
use velocity_gateway.Common.Int64.{Int64, add64, le64}
use velocity_gateway.Config.Types as Config
use velocity_gateway.Router.Backend.{Backend, new_backend}

pub data Metric : Type 0 where
  backend_up : Text → Bool → Metric
  backend_errors : Text → Text → Metric
  backend_latency : Text → Metric
  backend_retries : Metric

pub record Router : Type 0 where
  pub cfg : Config.Router
  pub backends : List Backend
  pub rr_idx : Int64
  pub metrics : List Metric

unfoldable pub make_backends : Int64 → List Config.Backend → List Backend
make_backends timeout [] = []
make_backends timeout (c ∷ cs) =
    new_backend c.name c.url c.weight timeout ∷ make_backends timeout cs

unfoldable pub all_up : List Backend → List Metric → List Metric
all_up [] log = log
all_up (b ∷ bs) log = all_up bs (backend_up b.name true ∷ log)

-- `New`; `none` is the error "router: no backends configured".
unfoldable pub new_router : Config.Router → Option Router
unfolding make_backends all_up
new_router cfg = elim cfg.backends [
  | [] ↦ none
  | c ∷ cs ↦
      let bs = make_backends cfg.request_timeout (c ∷ cs) in
      some (record { cfg = cfg; backends = bs; rr_idx = 0; metrics = all_up bs [] })
]

-- A write through a `*Backend`.
abbrev pub update : ℕ → (Backend → Backend) → Router → Router
update k f r = record r { backends = modify r.backends k f }

abbrev pub report : Metric → Router → Router
report m r = record r { metrics = m ∷ r.metrics }

-- The two branches of `recordHealth`, on the backend. The source reads `failures` again after it
-- has released the mutex; here the branch is one step.
unfoldable pub probe_passed : Backend → Backend
probe_passed b = record b { failures = 0; healthy = true }

unfoldable trips : Int64 → Backend → Bool
trips threshold b = le64 threshold (add64 b.failures 1) && b.healthy

unfoldable pub probe_failed : Int64 → Backend → Backend
unfolding trips
probe_failed threshold b = record b {
  failures = add64 b.failures 1;
  healthy = if trips threshold b then false else b.healthy;
}

unfoldable pub failed_metrics : Int64 → Backend → List Metric → List Metric
unfolding trips
failed_metrics threshold b log =
    if trips threshold b
    then backend_errors b.name (codes "unhealthy") ∷ backend_up b.name false ∷ log
    else log

unfoldable pub record_health : ℕ → Bool → Router → Router
unfolding probe_passed probe_failed failed_metrics
record_health k ok r = elim (get_elem? r.backends k) [
  | none ↦ r
  | some b ↦
      if ok
      then report (backend_up b.name true) (update k probe_passed r)
      else record (update k (probe_failed r.cfg.failure_threshold) r) {
        metrics = failed_metrics r.cfg.failure_threshold b r.metrics;
      }
]

-- What the GET of `checkOne` meets: no request could be built, no answer came, or a status.
pub data Probe : Type 0 where
  unbuildable : Probe
  unreachable : Probe
  answered : ℕ → Probe

unfoldable pub check_one : ℕ → Probe → Router → Router
unfolding record_health
check_one k unbuildable r = record_health k false r
check_one k unreachable r = record_health k false r
check_one k (answered status) r = record_health k (status / 100 == 2) r

-- `checkAll` starts one goroutine for each backend: the probes come back in any order, as a list
-- of backends and answers.
unfoldable check_all : List (ℕ × Probe) → Router → Router
unfolding check_one
check_all [] r = r
check_all ((k, p) ∷ ps) r = check_all ps (check_one k p r)
