-- ===== src/Common/Members.antt =====
-- Membership as a type that is matched on, and what holds of every element.
use Prim.Native.Nat.{ℕ, zero, suc, ◌<◌}
use mathlib.Core.Path.{◌≡◌, refl, sym, subst}
use mathlib.Core.Logic.{◌⊎◌, inl, inr}
use mathlib.Core.List.{List, [], ◌∷◌}
use mathlib.Core.Option.{some}
use native.Mathlib.Omega.{arith}
use velocity_gateway.Common.Lists.{length, get_elem?, All}

module _ {A : Type 0} where
  abbrev pub Among : A → List A → Type 0
  Among a [] = ⊥
  Among a (x ∷ xs) = (a ≡ x) ⊎ Among a xs

module _ {κ} {A : Type 0} (P : A → Type κ) where
  pub All-Among : (a : A) (xs : List A) → All P xs → Among a xs → P a
  All-Among a [] h m = absurd m
  All-Among a (x ∷ xs) h (inl e) = subst P (sym e) h.0
  All-Among a (x ∷ xs) h (inr m) = All-Among a xs h.1 m

  pub All-map {ι} : {Q : A → Type ι} (xs : List A) → ((a : A) → Q a → P a) → All Q xs → All P xs
  All-map [] f h = tt
  All-map (x ∷ xs) f h = (f x h.0, All-map xs f h.1)

module _ {A : Type 0} where
  pub All-intro : (xs : List A) (P : A → Type 0) → ((a : A) → Among a xs → P a) → All P xs
  All-intro [] P f = tt
  All-intro (x ∷ xs) P f = (f x (inl refl), All-intro xs P (λ a m. f a (inr m)))

  pub get_elem?-Among : (xs : List A) (i : ℕ) (a : A) → get_elem? xs i ≡ some a → Among a xs
  get_elem?-Among [] i a h = cc
  get_elem?-Among (x ∷ xs) zero a h = inl (cc)
  get_elem?-Among (x ∷ xs) (suc i) a h = inr (get_elem?-Among xs i a h)

  -- An index in range has an element.
  pub get_elem?_total : (xs : List A) (i : ℕ) → i < length xs → (a : A) × (get_elem? xs i ≡ some a)
  get_elem?_total [] i h = elim h [ ]
  get_elem?_total (x ∷ xs) zero h = (x, refl)
  get_elem?_total (x ∷ xs) (suc i) h = get_elem?_total xs i (omega arith)
