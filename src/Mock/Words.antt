-- ===== src/Mock/Words.antt =====
-- The tokens that cmd/mock-backend answers with are words: none is empty or has a space in it.
use velocity_gateway.Common.{
  ℕ, zero, suc, ◌-◌, ◌%◌, ◌≡◌, refl, sym, subst, Bool, true, false, not, ◌&&◌, Text, codes, List,
  [], ◌∷◌, ◌++◌, Option, none, some, length, get_elem?_total, get_elem?-Among, drop, All, All-Among,
  All-append, All-take, IsPiece, IsWhole, cut_at-IsPiece, arith,
}
use velocity_gateway.Gateway.Text.{is_space, fields}
use velocity_gateway.Gateway.Handler.{ChatMessage}
use velocity_gateway.Mock.Tokens.{vocab, vocab_word, last_user, last_six, padding, build_tokens}

abbrev has_no_space : Text → Bool
has_no_space [] = true
has_no_space (c ∷ cs) = not (is_space c) && has_no_space cs

abbrev is_word : Text → Bool
is_word [] = false
is_word (c ∷ cs) = not (is_space c) && has_no_space cs

abbrev are_words : List Text → Bool
are_words [] = true
are_words (t ∷ ts) = is_word t && are_words ts

has_no_space-IsWhole : (t : Text) → has_no_space t ≡ true → IsWhole is_space t
has_no_space-IsWhole [] h = tt
has_no_space-IsWhole (c ∷ cs) h = (ground (arith, h), has_no_space-IsWhole cs (ground (arith, h)))

is_word-IsPiece : (t : Text) → is_word t ≡ true → IsPiece is_space t
is_word-IsPiece [] h = cc
is_word-IsPiece (c ∷ cs) h = (tt, has_no_space-IsWhole (c ∷ cs) h)

are_words-IsPiece : (ts : List Text) → are_words ts ≡ true → All (IsPiece is_space) ts
are_words-IsPiece [] h = tt
are_words-IsPiece (t ∷ ts) h =
    (is_word-IsPiece t (ground (arith, h)), are_words-IsPiece ts (ground (arith, h)))

vocab-IsPiece : All (IsPiece is_space) vocab
unfolding vocab is_space
vocab-IsPiece = are_words-IsPiece vocab refl

vocab_word-IsPiece : (roll : ℕ) → IsPiece is_space (vocab_word roll)
unfolding vocab_word vocab
vocab_word-IsPiece roll =
    let i = roll % length vocab in
    let (w, e) = get_elem?_total vocab i (omega arith) in
    let word : Option Text → Text = λ o. elim o as (λ _. Text) [ none ↦ [] | some x ↦ x ] in
    subst (λ o. IsPiece is_space (word o)) (sym e)
      (All-Among (IsPiece is_space) w vocab vocab-IsPiece (get_elem?-Among vocab i w e))

padding-IsPiece : (rolls : ℕ → ℕ) (i k : ℕ) → All (IsPiece is_space) (padding rolls i k)
unfolding padding
padding-IsPiece rolls i zero = tt
padding-IsPiece rolls i (suc k) = (vocab_word-IsPiece (rolls i), padding-IsPiece rolls (suc i) k)

All-drop : (n : ℕ) (ts : List Text) → All (IsPiece is_space) ts → All (IsPiece is_space) (drop n ts)
All-drop zero ts h = h
All-drop (suc n) [] h = tt
All-drop (suc n) (t ∷ ts) (_, hs) = All-drop n ts hs

fields-IsPiece : (t : Text) → All (IsPiece is_space) (fields t)
unfolding fields
fields-IsPiece t = cut_at-IsPiece is_space [] t tt

pub build_tokens-IsPiece :
    (rolls : ℕ → ℕ) (msgs : List ChatMessage) (n : ℕ)
    → All (IsPiece is_space) (build_tokens rolls msgs n)
unfolding build_tokens last_six
build_tokens-IsPiece rolls msgs n =
    let echo = fields (last_user [] msgs) in
    let out = codes "Answer:" ∷ last_six echo in
    let pad = padding rolls 0 (n - length out) in
    All-take (IsPiece is_space) n (out ++ pad) (
      All-append (IsPiece is_space) out pad
        (
          is_word-IsPiece (codes "Answer:") (unfold is_space in refl),
          All-drop (length echo - 6) echo (fields-IsPiece (last_user [] msgs)),
        )
        (padding-IsPiece rolls 0 (n - length out)))
