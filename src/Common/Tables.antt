-- ===== src/Common/Tables.antt =====
-- Lists that hold the values of a function.
use Prim.Native.Nat.{ℕ, zero, suc, ◌+◌, ◌≤◌, ◌<◌}
use mathlib.Core.Path.{◌≡◌, refl, sym, ap, ◌∙◌, subst}
use mathlib.Core.Logic.{◌≢◌}
use mathlib.Core.List.{List, [], ◌∷◌}
use mathlib.Core.Option.{some}
use native.Mathlib.Omega.{arith}
use velocity_gateway.Common.Lists.{length, get_elem?, modify, repeated}

-- The values of a function at `k` numbers from `i` on.
abbrev pub table {ℓ} : {A : Type ℓ} → ℕ → ℕ → (ℕ → A) → List A
table i zero f = []
table i (suc k) f = f i ∷ table (suc i) k f

module _ {A : Type 0} where
  pub length-table : (i k : ℕ) (f : ℕ → A) → length (table i k f) ≡ k
  length-table i zero f = refl
  length-table i (suc k) f = ap suc (length-table (suc i) k f)

  pub repeated-table : (i k : ℕ) (a : A) → repeated k a ≡ table i k (λ _. a)
  repeated-table i zero a = refl
  repeated-table i (suc k) a = ap (λ l. a ∷ l) (repeated-table (suc i) k a)

  pub table_alike :
      (i k : ℕ) (f g : ℕ → A) → ((j : ℕ) → i ≤ j → f j ≡ g j) → table i k f ≡ table i k g
  table_alike i zero f g h = refl
  table_alike i (suc k) f g h =
      ap (λ x. x ∷ table (suc i) k f) (h i (omega arith))
      ∙ ap (λ l. g i ∷ l) (table_alike (suc i) k f g (λ j le. h j (omega (arith, le))))

  get_elem?-table : (i k j : ℕ) (f : ℕ → A) → j < k → get_elem? (table i k f) j ≡ some (f (i + j))
  get_elem?-table i zero j f h = absurd (omega arith)
  get_elem?-table i (suc k) zero f h = ap (λ x. some (f x)) (omega arith)
  get_elem?-table i (suc k) (suc j) f h =
      get_elem?-table (suc i) k j f (omega arith) ∙ ap (λ x. some (f x)) (omega arith)

  -- Changing one entry of a table.
  modify-table :
      (i k j : ℕ) (f g : ℕ → A) (h : A → A)
      → g (i + j) ≡ h (f (i + j))
      → ((l : ℕ) → (l ≢ i + j) → g l ≡ f l)
      → modify (table i k f) j h ≡ table i k g
  modify-table i zero j f g h at away = refl
  modify-table i (suc k) zero f g h at away =
      let here : g i ≡ h (f i) = subst (λ l. g l ≡ h (f l)) (omega arith) at in
      ap (λ x. x ∷ table (suc i) k f) (sym here)
      ∙ ap (λ l. g i ∷ l)
          (table_alike (suc i) k f g (λ l le. sym (away l (λ e. omega (arith, le, e)))))
  modify-table i (suc k) (suc j) f g h at away =
      ap (λ x. x ∷ modify (table (suc i) k f) j h) (sym (away i (λ e. omega (arith, e))))
      ∙ ap (λ l. g i ∷ l)
          (modify-table (suc i) k j f g h (subst (λ l. g l ≡ h (f l)) (omega arith) at)
            (λ l ne. away l (λ e. ne (e ∙ omega arith))))

  pub modify-table_0 :
      (k j : ℕ) (f g : ℕ → A) (h : A → A)
      → g j ≡ h (f j)
      → ((l : ℕ) → (l ≢ j) → g l ≡ f l)
      → modify (table 0 k f) j h ≡ table 0 k g
  modify-table_0 k j f g h at away =
      modify-table 0 k j f g h (subst (λ l. g l ≡ h (f l)) (omega arith) at)
        (λ l ne. away l (λ e. ne (e ∙ omega arith)))
