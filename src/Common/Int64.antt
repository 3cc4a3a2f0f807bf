-- ===== src/Common/Int64.antt =====
-- Go's `int` and `int64` on a 64-bit machine: a number below 2^64, read in two's complement.
use Prim.Native.Nat.{ℕ, ◌+◌, ◌-◌, ◌*◌, ◌%◌, ◌≤◌, ◌<◌}
use mathlib.Core.Path.{◌≡◌}
use mathlib.Core.Bool.{Bool, true, ◌||◌}
use native.Mathlib.Omega.{arith}
use velocity_gateway.Common.Tests.{ltb, leb, ◌==◌}

abbrev pub Int64 : Type 0
Int64 = ℕ

abbrev pub modulus : ℕ
modulus = 18446744073709551616

-- 2^63: from here on a word stands for a negative number.
abbrev sign_bit : ℕ
sign_bit = 9223372036854775808

abbrev pub minus_one : Int64
minus_one = 18446744073709551615

abbrev pub add64 : Int64 → Int64 → Int64
add64 a b = (a + b) % modulus

abbrev pub sub64 : Int64 → Int64 → Int64
sub64 a b = (a + (modulus - b % modulus)) % modulus

abbrev pub mul64 : Int64 → Int64 → Int64
mul64 a b = a * b % modulus

abbrev pub is_neg : Int64 → Bool
is_neg a = leb sign_bit a

-- `a <= 0`
abbrev pub is_nonpos : Int64 → Bool
is_nonpos a = a == 0 || is_neg a

-- The signed order: with the sign bit flipped it is the order of the words.
abbrev signed : Int64 → ℕ
signed a = (a + sign_bit) % modulus

abbrev lt64 : Int64 → Int64 → Bool
lt64 a b = ltb (signed a) (signed b)

abbrev pub le64 : Int64 → Int64 → Bool
le64 a b = leb (signed a) (signed b)

-- A word that stands for a number which is not negative.
abbrev pub IsNat64 : Int64 → Type 0
IsNat64 a = a < sign_bit

le64-le : (a b : Int64) → IsNat64 a → IsNat64 b → le64 a b ≡ true → a ≤ b
le64-le a b ha hb h = ground arith

le-le64 : (a b : Int64) → IsNat64 a → IsNat64 b → a ≤ b → le64 a b ≡ true
le-le64 a b ha hb h = ground arith

-- -1 undoes +1.
add64_cancel : (a : Int64) → a < modulus → add64 (add64 a 1) minus_one ≡ a
add64_cancel a h = omega arith
