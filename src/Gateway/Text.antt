-- ===== src/Gateway/Text.antt =====
-- The functions of Go's `strings` that internal/gateway calls.
use velocity_gateway.Common.{
  ℕ, ◌≡◌, refl, Bool, ◌||◌, ◌&&◌, Text, [], ◌∷◌, ◌++◌, Option, none, some, if◌then◌else◌, ◌==◌, leb,
  arith, cut_at, List,
}

-- `unicode.IsSpace`
unfoldable pub is_space : ℕ → Bool
is_space c =
    (leb 9 c && leb c 13)
    || (c == 32)
    || (c == 0x85)
    || (c == 0xA0)
    || (c == 0x1680)
    || (leb 0x2000 c && leb c 0x200A)
    || (c == 0x2028)
    || (c == 0x2029)
    || (c == 0x202F)
    || (c == 0x205F)
    || (c == 0x3000)

unfoldable pub trim_left : Text → Text
trim_left [] = []
trim_left (c ∷ cs) = let rest = trim_left cs in if is_space c then rest else c ∷ cs

-- A text without the spaces at its end.
unfoldable pub trim_right : Text → Text
trim_right [] = []
trim_right (c ∷ cs) = elim (trim_right cs) [
  | [] ↦ if is_space c then [] else c ∷ []
  | d ∷ ds ↦ c ∷ d ∷ ds
]

unfoldable pub trim_space : Text → Text
unfolding trim_left trim_right
trim_space s = trim_right (trim_left s)

-- `HasPrefix` and what follows the prefix.
unfoldable pub strip_prefix : Text → Text → Option Text
strip_prefix [] s = some s
strip_prefix (c ∷ cs) [] = none
strip_prefix (c ∷ cs) (d ∷ ds) = let rest = strip_prefix cs ds in if c == d then rest else none

pub strip_prefix-append : (p s : Text) → strip_prefix p (p ++ s) ≡ some s
unfolding strip_prefix
strip_prefix-append [] s = refl
strip_prefix-append (c ∷ cs) s = ground (arith, strip_prefix-append cs s)

pub strip_prefix_sound : (p h s : Text) → strip_prefix p h ≡ some s → h ≡ p ++ s
unfolding strip_prefix
strip_prefix_sound [] h s e = cc
strip_prefix_sound (c ∷ cs) [] s e = cc
strip_prefix_sound (c ∷ cs) (d ∷ ds) s e = ground (arith, strip_prefix_sound cs ds s)

-- `strings.Fields`
unfoldable pub fields : Text → List Text
fields s = cut_at is_space [] s
