-- ===== src/Cache/Tokens.antt =====
-- What `tokenize` of internal/cache/embedder.go makes of a text.
use velocity_gateway.Common.{
  ℕ, ◌≡◌, refl, sym, ap, ◌∙◌, true, false, Text, List, [], ◌∷◌, ◌++◌, map, All, IsPiece, IsWhole,
  cut_at, cut_at-IsPiece, cut_at-join_with, join_with, select, not, run_together,
  run_together-cut_at, arith, add_piece_lem, cut_at-append, cut_at-apart,
}
use mathlib.Core.List.{map-append, append-nil}
use velocity_gateway.Cache.Embedder.{to_lower, is_token_char, is_gap, tokenize}

to_lower_token : (c : ℕ) → is_gap c ≡ false → to_lower c ≡ c
unfolding to_lower is_token_char
to_lower_token c h = ground arith

fixed : (t : Text) → IsWhole is_gap t → map to_lower t ≡ t
fixed [] h = refl
fixed (c ∷ cs) (hc, hs) =
    ap (λ d. d ∷ map to_lower cs) (to_lower_token c hc) ∙ ap (λ l. c ∷ l) (fixed cs hs)

fixed-append :
    (t r s : Text) → IsWhole is_gap t → map to_lower r ≡ s → map to_lower (t ++ r) ≡ t ++ s
fixed-append t r s h k =
    map-append to_lower t r ∙ ap (λ a. a ++ map to_lower r) (fixed t h) ∙ ap (λ b. t ++ b) k

abbrev space : ℕ
space = 32

to_lower-space : to_lower space ≡ space
unfolding to_lower
to_lower-space = refl

fixed_joined :
    (ts : List Text)
    → All (IsPiece is_gap) ts
    → map to_lower (join_with space ts) ≡ join_with space ts
unfolding join_with
fixed_joined [] h = refl
fixed_joined (t ∷ []) ((_, h), _) = fixed t h
fixed_joined (t ∷ u ∷ us) ((_, h), hs) =
    fixed-append t (space ∷ join_with space (u ∷ us)) (space ∷ join_with space (u ∷ us)) h (
      ap (λ c. c ∷ map to_lower (join_with space (u ∷ us))) to_lower-space
      ∙ ap (λ l. space ∷ l) (fixed_joined (u ∷ us) hs))

tokenize-IsPiece : (s : Text) → All (IsPiece is_gap) (tokenize s)
unfolding tokenize
tokenize-IsPiece s = cut_at-IsPiece is_gap [] (map to_lower s) tt

select_alike : (t : Text) → select (λ c. not (is_gap c)) t ≡ select is_token_char t
select_alike [] = refl
select_alike (c ∷ cs) = ground (arith, select_alike cs)

tokenize-join_with : (ts : List Text) → All (IsPiece is_gap) ts → tokenize (join_with space ts) ≡ ts
unfolding tokenize
tokenize-join_with ts h =
    ap (cut_at is_gap []) (fixed_joined ts h)
    ∙ cut_at-join_with is_gap space ts (unfold is_token_char in refl) h

tokenize-apart :
    (a b : Text) (c : ℕ)
    → is_gap (to_lower c) ≡ true
    → tokenize (a ++ c ∷ b) ≡ tokenize a ++ tokenize b
unfolding tokenize
tokenize-apart a b c gap =
    ap (cut_at is_gap []) (map-append to_lower a (c ∷ b))
    ∙ cut_at-apart is_gap [] (map to_lower a) (map to_lower b) (to_lower c) gap

tokenize-word : (w : Text) → IsPiece is_gap (map to_lower w) → tokenize w ≡ map to_lower w ∷ []
unfolding tokenize cut_at
tokenize-word w (filled, whole) =
    ap (cut_at is_gap []) (sym (append-nil (map to_lower w)))
    ∙ cut_at-append is_gap [] (map to_lower w) [] whole
    ∙ add_piece_lem (map to_lower w) [] filled

-- The tokens of a text are not empty and have only letters and digits; run together they are the
-- letters and digits of the lower case of the text, none lost and in their order; and the tokens with
-- spaces between them are cut into the same tokens again. A text is cut at every character that is
-- neither letter nor digit in lower case, into the tokens before and those after it, and nowhere else: a
-- word that has only letters and digits in lower case, and is not empty, is one token.
pub tokenize_exact :
    (s a b w : Text) (c : ℕ)
    → is_gap (to_lower c) ≡ true
    → IsPiece is_gap (map to_lower w)
    → All (IsPiece is_gap) (tokenize s)
      × (run_together (tokenize s) ≡ select is_token_char (map to_lower s))
      × (tokenize (join_with space (tokenize s)) ≡ tokenize s)
      × (tokenize (a ++ c ∷ b) ≡ tokenize a ++ tokenize b)
      × (tokenize w ≡ map to_lower w ∷ [])
tokenize_exact s a b w c gap word = (
  tokenize-IsPiece s,
  unfold tokenize in
      (run_together-cut_at is_gap [] (map to_lower s) ∙ select_alike (map to_lower s)),
  tokenize-join_with (tokenize s) (tokenize-IsPiece s),
  tokenize-apart a b c gap,
  tokenize-word w word,
)
