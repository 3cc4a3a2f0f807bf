-- ===== src/Router/Backend.antt =====
-- internal/router/backend.go: one upstream server with its telemetry. The HTTP client is known by
-- its timeout. Each method is one atomic update, as the mutex or the atomic makes it in the source.
use velocity_gateway.Common.{ℕ, Bool, true, Text, if◌then◌else◌}
use velocity_gateway.Common.Int64.{Int64, is_nonpos, add64, minus_one}

pub record Backend : Type 0 where
  pub name : Text
  pub url : Text
  pub weight : Int64
  pub timeout : Int64
  pub failures : Int64
  pub last_fail_at : ℕ
  pub healthy : Bool
  pub in_flight : Int64

unfoldable pub new_backend : Text → Text → Int64 → Int64 → Backend
new_backend name url weight timeout = record {
  name = name;
  url = url;
  weight = if is_nonpos weight then 1 else weight;
  timeout = timeout;
  failures = 0;
  last_fail_at = 0;
  healthy = true;
  in_flight = 0;
}

unfoldable pub mark_failure : ℕ → Backend → Backend
mark_failure now b = record b { failures = add64 b.failures 1; last_fail_at = now }

unfoldable pub mark_success : Backend → Backend
mark_success b = record b { failures = 0 }

-- `b.inFlight.Add(1)` and `b.inFlight.Add(-1)`
unfoldable pub enter : Backend → Backend
enter b = record b { in_flight = add64 b.in_flight 1 }

unfoldable pub leave : Backend → Backend
leave b = record b { in_flight = add64 b.in_flight minus_one }
