-- ===== src/Config/RoundTrip.antt =====
-- Lists that are written with commas, and read by internal/config/config.go.
use velocity_gateway.Common.{
  ℕ, ◌≡◌, refl, sym, ap, ◌∙◌, false, Text, List, [], ◌∷◌, ◌++◌, some, All, All-append, IsFilled,
  IsPiece, join_with, cut_at-join_with, ◌==◌, arith,
}
use velocity_gateway.Config.Types.{Backend}
use velocity_gateway.Config.Csv.{
  comma, equals, is_comma, split_csv, split_equals, backend_of, backends_of, parse_backends_csv,
}

-- The items with commas between them.
abbrev pub joined : List Text → Text
joined = join_with comma

abbrev pub Without : ℕ → Text → Type 0
Without d = All (λ c. (c == d) ≡ false)

-- `splitCSV` gives back the items of a list that is written with commas, if none of them is empty or
-- has a comma.
split_csv-joined :
    (items : List Text) → All (IsPiece is_comma) items → split_csv (joined items) ≡ items
unfolding split_csv
split_csv-joined items h = cut_at-join_with is_comma comma items refl h

-- `name=url`
abbrev pub written : Backend → Text
written b = b.name ++ (equals ∷ b.url)

abbrev pub all_written : List Backend → List Text
all_written [] = []
all_written (b ∷ bs) = written b ∷ all_written bs

-- A backend as the variable can state it.
abbrev IsPlain : Backend → Type 0
IsPlain b = Without comma b.name × Without equals b.name × Without comma b.url × (b.weight ≡ 1)

split_equals_lem :
    (name url : Text)
    → Without equals name
    → split_equals (name ++ (equals ∷ url)) ≡ some (name, url)
unfolding split_equals
split_equals_lem [] url h = refl
split_equals_lem (c ∷ cs) url (hc, hs) = ground (arith, split_equals_lem cs url hs)

written-IsPiece : (b : Backend) → IsPlain b → IsPiece is_comma (written b)
written-IsPiece b (name, _, url, _) =
    (filled b.name, All-append (λ c. (c == comma) ≡ false) b.name (equals ∷ b.url) name (refl, url))
  where
    filled : (x : Text) → IsFilled (x ++ (equals ∷ b.url))
    filled [] = tt
    filled (c ∷ cs) = tt

all_written-IsPiece : (bs : List Backend) → All IsPlain bs → All (IsPiece is_comma) (all_written bs)
all_written-IsPiece [] h = tt
all_written-IsPiece (b ∷ bs) (h, hs) = (written-IsPiece b h, all_written-IsPiece bs hs)

backends_of_lem : (bs : List Backend) → All IsPlain bs → backends_of (all_written bs) ≡ bs
unfolding backends_of backend_of
backends_of_lem [] h = refl
backends_of_lem (b ∷ bs) ((_, plain, _, one), hs) =
    ap (λ o. backend_of (written b) o ∷ backends_of (all_written bs))
      (split_equals_lem b.name b.url plain)
    ∙ ap (λ l. record { name = b.name; url = b.url; weight = 1 } ∷ l) (backends_of_lem bs hs)
    ∙ ap (λ w. record { name = b.name; url = b.url; weight = w } ∷ bs) (sym one)

-- `parseBackendsCSV` gives back the backends that are written as `name=url` with commas between them,
-- if no name has a comma or `=`, no URL has a comma, and every weight is 1.
pub parse_backends_csv-written :
    (bs : List Backend) → All IsPlain bs → parse_backends_csv (joined (all_written bs)) ≡ bs
unfolding parse_backends_csv
parse_backends_csv-written bs h =
    ap backends_of (split_csv-joined (all_written bs) (all_written-IsPiece bs h))
    ∙ backends_of_lem bs h
