-- ===== src/Router/TrafficExamples.antt =====
-- Two calls at once on two backends, and the theorem on the traffic of internal/router applied to them.
use velocity_gateway.Common.{
  ◌%◌, ◌≡◌, refl, codes, Text, [], ◌∷◌, some, true, arith, text_eq, mem_text,
}
use velocity_gateway.Common.Int64.{modulus}
use velocity_gateway.Config.Types as Config
use velocity_gateway.Router.Backend.{Backend, new_backend}
use velocity_gateway.Router.State.{Router, new_router, backend_up}
use velocity_gateway.Router.Selection.{pick}
use velocity_gateway.Router.Dispatch.{Upstream}
use velocity_gateway.Router.InFlight.{load_of}
use velocity_gateway.Router.Traffic.{
  Traffic, arrives, picks, hears, take_turn, Reachable, fresh, after,
}
use velocity_gateway.Router.InStep.{busy}
use velocity_gateway.Router.Busy.{in_flight_exact}

abbrev at : Text → Config.Backend
at name = record { name = name; url = codes "http://mock:9000"; weight = 1 }

abbrev settings : Config.Router
settings = record {
  strategy = codes "round_robin";
  health_check_path = codes "/health";
  health_interval = 5_000_000_000;
  health_timeout = 2_000_000_000;
  failure_threshold = 3;
  retry_attempts = 2;
  request_timeout = 60_000_000_000;
  backends = at (codes "mock-1") ∷ at (codes "mock-2") ∷ [];
}

abbrev idle : Text → Backend
idle name = new_backend name (codes "http://mock:9000") 1 60_000_000_000

abbrev pool : Router
pool = record {
  cfg = settings;
  backends = idle (codes "mock-1") ∷ idle (codes "mock-2") ∷ [];
  rr_idx = 0;
  metrics = backend_up (codes "mock-2") true ∷ backend_up (codes "mock-1") true ∷ [];
}

made : new_router settings ≡ some pool
unfolding new_router new_backend
made = refl

-- Both calls pick; the first one's backend answers with 500, so that it is to pick again.
abbrev two_calls : Traffic
two_calls = take_turn (hears 0 (Upstream.answered 500 []) 7) (
    take_turn (picks 1 0 0) (
      take_turn (picks 0 0 0)
        (take_turn arrives (take_turn arrives (record { router = pool; calls = [] })))))

two_calls-Reachable : Reachable settings two_calls
two_calls-Reachable = after (hears 0 (Upstream.answered 500 []) 7) _ (
    after (picks 1 0 0) _
      (after (picks 0 0 0) _ (after arrives _ (after arrives _ (fresh pool made)))))

in_flight_exact_example : load_of 1 two_calls.router % modulus ≡ busy 1 two_calls.calls
in_flight_exact_example =
    in_flight_exact settings 1 two_calls two_calls-Reachable
      (unfold take_turn pick new_backend mem_text text_eq in omega arith)
      (unfold take_turn pick new_backend mem_text text_eq in omega arith)

second_in_flight : load_of 1 two_calls.router ≡ 1
unfolding take_turn pick new_backend mem_text text_eq
second_in_flight = refl
