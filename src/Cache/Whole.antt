-- ===== src/Cache/Whole.antt =====
-- An arithmetic of whole numbers in place of floats, and two vectors, to try internal/cache on.
use velocity_gateway.Common.{
  ℕ, suc, ◌+◌, ◌-◌, ◌*◌, ◌≡◌, ◌⊎◌, inl, inr, true, codes, List, [], ◌∷◌, Bool-cases, ltb, arith,
}
use velocity_gateway.Cache.Vector.{Floats}
use velocity_gateway.Cache.Store.{Entry}
use velocity_gateway.Cache.Nearest.{NoNan}

-- Whole numbers from -1 on: `n` stands for `n - 1`.
abbrev pub whole : Floats
whole = record {
  F32 = ℕ;
  F64 = ℕ;
  widen = λ n. suc n;
  zero = 1;
  minus_one = 0;
  add = λ a b. a + b - 1;
  mul = λ a b. suc ((a - 1) * (b - 1));
  lt = ltb;
}

pub whole-NoNan : NoNan whole
whole-NoNan = record { lt-asym = λ a b h. ground arith; lt-between = between }
  where
    between : (a b c : ℕ) → ltb a b ≡ true → (ltb a c ≡ true) ⊎ (ltb c b ≡ true)
    between a b c h = elim (Bool-cases (ltb a c)) [ inl k ↦ inl k | inr k ↦ inr (ground arith) ]

abbrev pub entry : ℕ → Entry
entry t = record { model = codes "m"; content = codes "raft"; raw = []; created_at = t }

abbrev pub east : List ℕ
east = 1 ∷ 0 ∷ []

abbrev pub north : List ℕ
north = 0 ∷ 1 ∷ []
