-- ===== src/Common/Splits.antt =====
-- Texts cut at some characters, the empty pieces left out: what `splitCSV`, `strings.Fields` and
-- `tokenize` have in common. And texts put together from pieces.
use Prim.Native.Nat.{ℕ}
use mathlib.Core.Path.{◌≡◌, refl, sym, ap, ◌∙◌}
use mathlib.Core.List.{List, [], ◌∷◌, ◌++◌, append-nil, append_assoc}
use mathlib.Core.Bool.{Bool, true, false, not}
use native.Mathlib.Omega.{arith}
use velocity_gateway.Common.Tests.{if◌then◌else◌, if_cases}
use velocity_gateway.Common.Lists.{All, All-append, select}
use velocity_gateway.Common.Strings.{Text}

abbrev add_piece : Text → List Text → List Text
add_piece [] out = out
add_piece (c ∷ cs) out = (c ∷ cs) ∷ out

-- The pieces of a text between the characters at which it is cut, after a piece that has begun.
unfoldable pub cut_at : (ℕ → Bool) → Text → Text → List Text
cut_at stop piece [] = add_piece piece []
cut_at stop piece (c ∷ cs) =
    let next = cut_at stop [] cs in
    let longer = cut_at stop (piece ++ (c ∷ [])) cs in
    if stop c then add_piece piece next else longer

-- `strings.Join` with a separator of one character.
unfoldable pub join_with : ℕ → List Text → Text
join_with sep [] = []
join_with sep (x ∷ []) = x
join_with sep (x ∷ y ∷ ys) = x ++ (sep ∷ join_with sep (y ∷ ys))

abbrev pub IsFilled : Text → Type 0
IsFilled [] = ⊥
IsFilled (c ∷ cs) = Unit {0}

-- A piece that has no character to cut at.
abbrev pub IsWhole : (ℕ → Bool) → Text → Type 0
IsWhole stop = All (λ c. stop c ≡ false)

abbrev pub IsPiece : (ℕ → Bool) → Text → Type 0
IsPiece stop x = IsFilled x × IsWhole stop x

pub add_piece_lem : (x : Text) (out : List Text) → IsFilled x → add_piece x out ≡ x ∷ out
add_piece_lem [] out h = absurd h
add_piece_lem (c ∷ cs) out h = refl

module _ (stop : ℕ → Bool) where
  pub cut_at-append :
      (piece x rest : Text)
      → IsWhole stop x
      → cut_at stop piece (x ++ rest) ≡ cut_at stop (piece ++ x) rest
  unfolding cut_at
  cut_at-append piece [] rest h = ap (λ s. cut_at stop s rest) (sym (append-nil piece))
  cut_at-append piece (c ∷ cs) rest (hc, hs) =
      ap
        (λ b.
          if b
          then add_piece piece (cut_at stop [] (cs ++ rest))
          else cut_at stop (piece ++ (c ∷ [])) (cs ++ rest))
        hc
      ∙ cut_at-append (piece ++ (c ∷ [])) cs rest hs
      ∙ ap (λ s. cut_at stop s rest) (append_assoc piece (c ∷ []) cs)

  add_piece-IsPiece :
      (x : Text) (out : List Text)
      → IsWhole stop x
      → All (IsPiece stop) out
      → All (IsPiece stop) (add_piece x out)
  add_piece-IsPiece [] out h hs = hs
  add_piece-IsPiece (c ∷ cs) out h hs = ((tt, h), hs)

  -- Every piece has a character, and none to cut at.
  pub cut_at-IsPiece :
      (piece t : Text) → IsWhole stop piece → All (IsPiece stop) (cut_at stop piece t)
  unfolding cut_at
  cut_at-IsPiece piece [] h = add_piece-IsPiece piece [] h tt
  cut_at-IsPiece piece (c ∷ cs) h =
      if_cases (λ l. All (IsPiece stop) l) (stop c)
        (λ _. add_piece-IsPiece piece (cut_at stop [] cs) h (cut_at-IsPiece [] cs tt))
        (λ go.
          cut_at-IsPiece (piece ++ (c ∷ [])) cs
            (All-append (λ x. stop x ≡ false) piece (c ∷ []) h (go, tt)))

  -- Pieces that are joined by a character to cut at are cut apart again.
  pub cut_at-join_with :
      (sep : ℕ) (pieces : List Text)
      → stop sep ≡ true
      → All (IsPiece stop) pieces
      → cut_at stop [] (join_with sep pieces) ≡ pieces
  unfolding cut_at join_with
  cut_at-join_with sep [] s h = refl
  cut_at-join_with sep (x ∷ []) s ((filled, whole), _) =
      ap (cut_at stop []) (sym (append-nil x))
      ∙ cut_at-append [] x [] whole
      ∙ add_piece_lem x [] filled
  cut_at-join_with sep (x ∷ y ∷ ys) s ((filled, whole), hs) =
      let rest = join_with sep (y ∷ ys) in
      cut_at-append [] x (sep ∷ rest) whole
      ∙ ap
          (λ b. if b then add_piece x (cut_at stop [] rest) else cut_at stop (x ++ (sep ∷ [])) rest)
          s
      ∙ add_piece_lem x (cut_at stop [] rest) filled
      ∙ ap (λ l. x ∷ l) (cut_at-join_with sep (y ∷ ys) s hs)

add_piece-append :
    (x : Text) (out rest : List Text) → add_piece x (out ++ rest) ≡ add_piece x out ++ rest
add_piece-append [] out rest = refl
add_piece-append (c ∷ cs) out rest = refl

-- A character to cut at keeps what is before it and what is after it apart.
pub cut_at-apart :
    (stop : ℕ → Bool) (piece t u : Text) (c : ℕ)
    → stop c ≡ true
    → cut_at stop piece (t ++ c ∷ u) ≡ cut_at stop piece t ++ cut_at stop [] u
unfolding cut_at
cut_at-apart stop piece [] u c h =
    ap (λ b. if b then add_piece piece (cut_at stop [] u) else cut_at stop (piece ++ (c ∷ [])) u) h
    ∙ add_piece-append piece [] (cut_at stop [] u)
cut_at-apart stop piece (d ∷ t) u c h = ground (
  arith,
  cut_at-apart stop [] t u c h,
  cut_at-apart stop (piece ++ (d ∷ [])) t u c h,
  add_piece-append piece (cut_at stop [] t) (cut_at stop [] u),
)

-- The pieces with nothing between them.
unfoldable pub run_together : List Text → Text
run_together [] = []
run_together (x ∷ xs) = x ++ run_together xs

module _ (stop : ℕ → Bool) where
  abbrev pub goes : ℕ → Bool
  goes c = not (stop c)

  run_together-add_piece :
      (x : Text) (out : List Text) → run_together (add_piece x out) ≡ x ++ run_together out
  unfolding run_together
  run_together-add_piece [] out = refl
  run_together-add_piece (c ∷ cs) out = refl

  -- No character is lost but those at which the text is cut.
  pub run_together-cut_at :
      (piece t : Text) → run_together (cut_at stop piece t) ≡ piece ++ select goes t
  unfolding run_together cut_at
  run_together-cut_at piece [] = run_together-add_piece piece []
  run_together-cut_at piece (c ∷ cs) = ground (
    arith,
    run_together-add_piece piece (cut_at stop [] cs),
    run_together-cut_at [] cs,
    run_together-cut_at (piece ++ (c ∷ [])) cs,
    append_assoc piece (c ∷ []) (select goes cs),
  )
