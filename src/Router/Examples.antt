-- ===== src/Router/Examples.antt =====
-- A pool of two backends, and the theorems on internal/router applied to it.
use velocity_gateway.Common.{
  some, ℕ, zero, suc, ◌≡◌, ◌≢◌, refl, true, false, Text, codes, text_eq, mem_text, List, [], ◌∷◌,
  arith,
}
use velocity_gateway.Config.Types as Config
use velocity_gateway.Router.Backend.{Backend}
use velocity_gateway.Router.State.{Router, probe_failed}
use velocity_gateway.Router.Selection.{weighted_pick, Pointer, picked, pick}
use velocity_gateway.Router.Dispatch.{
  Attempt, Upstream, canceled, served, refused, panicked, Response, do_request, do_loop, do_once,
  acts, after_failure,
}
use velocity_gateway.Router.Choice.{IsSound, pick-IsSound}
use velocity_gateway.Router.Weights.{weighted_pick_by_weight}
use velocity_gateway.Router.Threshold.{
  request, fail_all, masked, probe_failed-at_threshold, masked-healthy,
}
use velocity_gateway.Router.Shape.{names}
use velocity_gateway.Router.Failover.{IsRefusal, do_request-refused}
use velocity_gateway.Router.Service.{IsServed, do_request-served, do_request-ne-panicked}
use velocity_gateway.Router.InFlight.{Moves}
use velocity_gateway.Router.Accounting.{held, do_request-Moves}

abbrev backend : Text → ℕ → Backend
backend name load = record {
  name = name;
  url = codes "http://mock:9000";
  weight = 1;
  timeout = 60_000_000_000;
  failures = 0;
  last_fail_at = 0;
  healthy = true;
  in_flight = load;
}

abbrev settings : Config.Router
settings = record {
  strategy = codes "weighted_p2c";
  health_check_path = codes "/health";
  health_interval = 5_000_000_000;
  health_timeout = 2_000_000_000;
  failure_threshold = 3;
  retry_attempts = 2;
  request_timeout = 60_000_000_000;
  backends = [];
}

abbrev idle : Backend
idle = backend (codes "mock-1") 0

abbrev busy : Backend
busy = backend (codes "mock-2") 3

abbrev pool : Router
pool = record { cfg = settings; backends = busy ∷ idle ∷ []; rr_idx = 0; metrics = [] }

-- The first upstream fails, the second answers with 200.
abbrev answer_to : ℕ → Upstream
answer_to zero = Upstream.failed canceled
answer_to (suc i) = Upstream.answered 200 (codes "ok")

abbrev flaky : ℕ → Attempt
flaky i = record {
  before = [];
  during = [];
  roll = 0;
  roll' = 1;
  upstream = answer_to i;
  failed_at = 7;
}

abbrev dead : ℕ → Attempt
dead i = record {
  before = [];
  during = [];
  roll = 0;
  roll' = 1;
  upstream = Upstream.failed canceled;
  failed_at = 7;
}

picks_idle : pick pool [] 0 0 ≡ picked (1, idle) 0
unfolding pick mem_text text_eq
picks_idle = refl

pick-IsSound_example : IsSound pool [] (1, idle)
pick-IsSound_example = pick-IsSound pool [] 0 0 (1, idle) 0 picks_idle

abbrev tried_both : List Text
tried_both = codes "mock-1" ∷ codes "mock-2" ∷ []

abbrev heavy : Pointer
heavy = (1, record idle { weight = 4 })

weighted_pick_by_weight_example : weighted_pick ((0, busy) ∷ heavy ∷ []) 3 ≡ some heavy
weighted_pick_by_weight_example =
    weighted_pick_by_weight ((0, busy) ∷ []) heavy [] 3 (omega arith) (omega arith) (omega arith)

probe_failed-at_threshold_example :
    (probe_failed 3 (fail_all 3 (request 1 ∷ request 2 ∷ request 3 ∷ []) idle)).healthy ≡ false
probe_failed-at_threshold_example =
    probe_failed-at_threshold 3 (request 1 ∷ request 2 ∷ request 3 ∷ []) idle (omega arith)
      (omega arith) refl

masked-healthy_example : (masked 100 3 idle).healthy ≡ true
masked-healthy_example = masked-healthy 100 3 idle (omega arith) (omega arith) refl refl

reply_of_busy : Response
reply_of_busy = record { status = 200; body = codes "ok"; backend = 0 }

served_by_busy : (do_request flaky pool).outcome ≡ served reply_of_busy (codes "mock-2")
unfolding do_request do_loop acts pick do_once after_failure mem_text text_eq reply_of_busy
served_by_busy = refl

do_request-served_example :
    IsServed (names pool.backends) reply_of_busy (codes "mock-2") (do_request flaky pool)
do_request-served_example =
    do_request-served flaky pool reply_of_busy (codes "mock-2") served_by_busy

refused_by_all : (do_request dead pool).outcome ≡ refused canceled
unfolding do_request do_loop acts pick do_once after_failure mem_text text_eq
refused_by_all = refl

do_request-refused_example : IsRefusal dead 2 0 [] (names pool.backends) (do_request dead pool)
do_request-refused_example = do_request-refused dead pool canceled refused_by_all

do_request-ne-panicked_example : (do_request dead pool).outcome ≢ panicked
do_request-ne-panicked_example = do_request-ne-panicked dead pool (unfold text_eq in refl)

do_request-Moves_example :
    Moves 0 pool (held 0 (do_request flaky pool).outcome) (do_request flaky pool).router
do_request-Moves_example = do_request-Moves 0 flaky pool (λ i. (refl, refl)) (omega arith)
