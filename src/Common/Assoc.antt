-- ===== src/Common/Assoc.antt =====
-- A Go map with text keys, as an association list.
use mathlib.Core.Path.{◌≡◌}
use mathlib.Core.Logic.{inl, inr}
use mathlib.Core.List.{List, [], ◌∷◌}
use mathlib.Core.Bool.{false}
use mathlib.Core.Option.{Option, none, some}
use native.Mathlib.Omega.{arith}
use velocity_gateway.Common.Tests.{if◌then◌else◌, Bool-cases}
use velocity_gateway.Common.Strings.{Text, text_eq, text_eq_refl, text_eq_sound}

module _ {ℓ} {V : Type ℓ} where
  unfoldable pub lookup : Text → List (Text × V) → Option V
  lookup k [] = none
  lookup k ((j, v) ∷ m) = if text_eq j k then some v else lookup k m

  unfoldable pub insert : Text → V → List (Text × V) → List (Text × V)
  insert k v [] = (k, v) ∷ []
  insert k v ((j, w) ∷ m) = if text_eq j k then (k, v) ∷ m else (j, w) ∷ insert k v m

  pub lookup-insert_self :
      (k : Text) (v : V) (m : List (Text × V)) → lookup k (insert k v m) ≡ some v
  unfolding lookup insert
  lookup-insert_self k v [] = ground (arith, text_eq_refl k)
  lookup-insert_self k v ((j, w) ∷ m) = ground (arith, text_eq_refl k, lookup-insert_self k v m)

  pub lookup-insert_ne :
      (k j : Text) (v : V) (m : List (Text × V))
      → text_eq k j ≡ false
      → lookup j (insert k v m) ≡ lookup j m
  unfolding lookup insert
  lookup-insert_ne k j v [] ne = ground arith
  lookup-insert_ne k j v ((i, w) ∷ m) ne = elim (Bool-cases (text_eq i k)) [
    | inl same ↦ ground (arith, text_eq_sound i k same)
    | inr other ↦ ground (arith, lookup-insert_ne k j v m ne)
  ]
