-- ===== src/Cache/Vector.antt =====
-- The float arithmetic of internal/cache, as a parameter, and `cosineDot` of memory_store.go.
use velocity_gateway.Common.{Bool, List, [], ◌∷◌, length, if◌then◌else◌, ◌==◌}

-- float32 and float64: the conversion, the operations on float64, and `a < b`, which is false when
-- one of them is not a number.
pub record Floats : Type 1 where
  pub F32 : Type 0
  pub F64 : Type 0
  pub widen : F32 → F64
  pub zero : F64
  pub minus_one : F64
  pub add : F64 → F64 → F64
  pub mul : F64 → F64 → F64
  pub lt : F64 → F64 → Bool

module _ (m : Floats) where
  open m use {F32, F64, widen, add, mul}

  -- `for i := range a { s += float64(a[i]) * float64(b[i]) }`, from `s`.
  unfoldable pub dot_from : F64 → List F32 → List F32 → F64
  dot_from s [] b = s
  dot_from s (x ∷ xs) [] = s
  dot_from s (x ∷ xs) (y ∷ ys) = dot_from (add s (mul (widen x) (widen y))) xs ys

  unfoldable pub cosine_dot : List F32 → List F32 → F64
  unfolding dot_from
  cosine_dot a b = if length a == length b then dot_from m.zero a b else m.minus_one
