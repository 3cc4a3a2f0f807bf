-- ===== src/Router/Threshold.antt =====
-- When a backend changes its health: `recordHealth`, `markFailure` and `markSuccess` of
-- internal/router.
use velocity_gateway.Common.{
  ℕ, zero, suc, ◌+◌, ◌<◌, ◌≡◌, refl, true, false, List, [], ◌∷◌, length, ltb, arith, ◌≤◌,
  Bool-cases, inl, inr,
}
use velocity_gateway.Common.Int64.{Int64, IsNat64}
use velocity_gateway.Router.Backend.{Backend, mark_failure, mark_success}
use velocity_gateway.Router.State.{probe_failed}

-- What the source counts as a failure: a probe that fails, or a request that fails at some time.
pub data Failure : Type 0 where
  probe : Failure
  request : ℕ → Failure

pub fail : Int64 → Failure → Backend → Backend
unfolding probe_failed mark_failure
fail threshold probe b = probe_failed threshold b
fail threshold (request now) b = mark_failure now b

pub fail_all : Int64 → List Failure → Backend → Backend
unfolding fail
fail_all threshold [] b = b
fail_all threshold (f ∷ fs) b = fail_all threshold fs (fail threshold f b)

-- Every failure counts, and a backend is down only if the failures have reached the threshold.
fail_all_counts :
    (threshold : Int64) (fs : List Failure) (b : Backend)
    → IsNat64 (b.failures + length fs)
    → IsNat64 threshold
    → (b.healthy ≡ false → threshold ≤ b.failures)
    → ((fail_all threshold fs b).failures ≡ b.failures + length fs)
      × ((fail_all threshold fs b).healthy ≡ false → threshold ≤ b.failures + length fs)
unfolding fail_all
fail_all_counts threshold [] b small n down = (omega arith, λ h. omega (arith, down h))
fail_all_counts threshold (probe ∷ fs) b small n down =
    let (count, below) =
      fail_all_counts threshold fs (probe_failed threshold b) (ground (arith, small)) n
        (λ h. ground (arith, small, n, down, h)) in
    (ground (arith, count), λ h. ground (arith, below h))
fail_all_counts threshold (request now ∷ fs) b small n down =
    let (count, below) =
      fail_all_counts threshold fs (mark_failure now b) (ground (arith, small)) n
        (λ h. ground (arith, small, down h)) in
    (ground (arith, count), λ h. ground (arith, below h))

-- After a backend was healthy, any failures and then a failed probe leave it healthy exactly if the
-- failures since the last success, that probe included, are fewer than the threshold, whether they were
-- probes or requests, and also when those of the requests alone have passed the threshold before. The
-- threshold is not negative, and the failures do not overflow.
pub probe_failed-at_threshold :
    (threshold : Int64) (fs : List Failure) (b : Backend)
    → IsNat64 (b.failures + length fs + 1)
    → IsNat64 threshold
    → b.healthy ≡ true
    → (probe_failed threshold (fail_all threshold fs b)).healthy
      ≡ ltb (b.failures + length fs + 1) threshold
unfolding probe_failed
probe_failed-at_threshold threshold fs b small n up =
    let (count, below) = fail_all_counts threshold fs b (omega (arith, small)) n (λ h. cc) in
    elim (Bool-cases (fail_all threshold fs b).healthy) [
      | inl y ↦ ground (arith, count, y, small, n)
      | inr d ↦ ground (arith, count, d, below d)
    ]

-- Rounds in which a probe fails and then the body of some request is closed.
pub masked : ℕ → Int64 → Backend → Backend
unfolding probe_failed mark_success
masked zero threshold b = b
masked (suc n) threshold b = masked n threshold (mark_success (probe_failed threshold b))

-- A backend whose every probe fails, and which completes one request after each, never goes down if
-- the threshold is at least 2: `markSuccess` resets the count of failed probes.
pub masked-healthy :
    (n : ℕ) (threshold : Int64) (b : Backend)
    → 1 < threshold
    → IsNat64 threshold
    → b.failures ≡ 0
    → b.healthy ≡ true
    → (masked n threshold b).healthy ≡ true
unfolding masked
masked-healthy zero threshold b two n z up = up
masked-healthy (suc k) threshold b two n z up =
    masked-healthy k threshold (mark_success (probe_failed threshold b)) two n refl (ground arith)
