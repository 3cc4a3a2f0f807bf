-- ===== src/RateLimit/Exact.antt =====
-- The bucket of internal/ratelimit/memory.go in exact arithmetic, in billionths of a token.
use velocity_gateway.Common.{
  ℕ, ◌+◌, ◌-◌, ◌*◌, ◌/◌, ◌≤◌, ◌≡◌, ap, sym, ◌∙◌, Bool, true, false, arith,
}
use velocity_gateway.Common.Int64.{Int64}
use velocity_gateway.RateLimit.Arith.{billion, exact}
use velocity_gateway.RateLimit.Bucket.{Bucket, cap, refill, spend}
use native.Mathlib.Nat.{mul-div_cancel, mul_assoc, mul-le-mul_right, add-mul}

-- What flows in during `d` nanoseconds.
pub inflow : (d rps : ℕ) → d * (rps * billion) / billion ≡ d * rps
inflow d rps =
    ap (λ x. x / billion) (sym (mul_assoc d rps billion)) ∙ mul-div_cancel (d * rps) (omega arith)

unfoldable pub count : Bool → ℕ
count true = 1
count false = 0

pub refill_lem :
    (rps burst : Int64) (now : ℕ) (b : Bucket exact)
    → refill exact rps burst now b ≡ cap exact (burst * billion) (b.tokens + (now - b.last) * rps)
unfolding refill
refill_lem rps burst now b =
    ap (λ x. cap exact (burst * billion) (b.tokens + x)) (inflow (now - b.last) rps)

pub cap_le : (c x : ℕ) → cap exact c x ≤ c
unfolding cap
cap_le c x = ground arith

pub cap_id : (c x : ℕ) → cap exact c x ≤ x
unfolding cap
cap_id c x = ground arith

pub cap_grows : (c x y d : ℕ) → y ≤ x + d → cap exact c y ≤ cap exact c x + d
unfolding cap
cap_grows c x y d h = ground arith

-- A call takes what it grants out of the bucket.
pub spend_lem : (t : ℕ) → (spend exact t).0 + count (spend exact t).1 * billion ≡ t
unfolding spend count
spend_lem t = ground arith

pub cap-enough : (c x : ℕ) → billion ≤ c → billion ≤ x → billion ≤ cap exact c x
unfolding cap
cap-enough c x hc hx = ground arith

pub spend-enough : (t : ℕ) → billion ≤ t → (spend exact t).1 ≡ true
unfolding spend
spend-enough t h = ground arith

pub flow_le :
    (start now last rps : ℕ)
    → start ≤ now
    → (now - last) * rps ≤ (start - last) * rps + (now - start) * rps
flow_le start now last rps h =
    let apart : now - last ≤ start - last + (now - start) = omega arith in
    omega (arith, mul-le-mul_right rps apart, add-mul (start - last) (now - start) rps)
