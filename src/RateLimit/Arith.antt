-- ===== src/RateLimit/Arith.antt =====
-- The float64 and Lua number operations that internal/ratelimit computes with, as a parameter, and
-- exact arithmetic in billionths of a token as one choice of it.
use velocity_gateway.Common.{ℕ, ◌+◌, ◌-◌, ◌*◌, ◌/◌, Bool, ltb, leb}
use velocity_gateway.Common.Int64.{Int64}

-- `seconds` is `Duration.Seconds()` of a duration in nanoseconds, and `millis` is `d / 1000.0`.
pub record Arith : Type 1 where
  pub F : Type 0
  pub of_int : Int64 → F
  pub add : F → F → F
  pub sub : F → F → F
  pub mul : F → F → F
  pub lt : F → F → Bool
  pub ge : F → F → Bool
  pub seconds : ℕ → F
  pub millis : ℕ → F

abbrev pub billion : ℕ
billion = 1_000_000_000

-- A number `n` stands for `n / 10^9`. No operation of the limiters leaves the range: they subtract 1
-- only from a bucket that holds it, and the clocks of a process do not run backwards. A burst that wraps
-- around below 0, of a rate of 2^62 or more with no burst given, is read as the word that it is.
abbrev pub exact : Arith
exact = record {
  F = ℕ;
  of_int = λ n. n * billion;
  add = λ a b. a + b;
  sub = λ a b. a - b;
  mul = λ a b. a * b / billion;
  lt = ltb;
  ge = λ a b. leb b a;
  seconds = λ d. d;
  millis = λ d. d * 1_000_000;
}
