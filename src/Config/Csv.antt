-- ===== src/Config/Csv.antt =====
-- `splitCSV` and `parseBackendsCSV` of internal/config/config.go.
use velocity_gateway.Common.{
  ℕ, Bool, cut_at, Text, List, [], ◌∷◌, Option, none, some, if◌then◌else◌, ◌==◌,
}
use velocity_gateway.Config.Types.{Backend}

abbrev pub comma : ℕ
comma = 44

abbrev pub equals : ℕ
equals = 61

abbrev pub is_comma : ℕ → Bool
is_comma c = c == comma

-- The loop of `splitCSV` keeps the segment since `start`, and drops the empty ones.
unfoldable pub split_csv : Text → List Text
unfolding cut_at
split_csv s = cut_at is_comma [] s

-- What is before the first `=` and after it.
unfoldable pub split_equals : Text → Option (Text × Text)
split_equals [] = none
split_equals (c ∷ cs) =
    let rest = split_equals cs in
    if c == equals
    then some ([], cs)
    else elim rest [ none ↦ none | some (name, url) ↦ some (c ∷ name, url) ]

unfoldable pub backend_of : Text → Option (Text × Text) → Backend
backend_of p none = record { name = p; url = p; weight = 1 }
backend_of p (some (name, url)) = record { name = name; url = url; weight = 1 }

unfoldable pub backends_of : List Text → List Backend
unfolding split_equals backend_of
backends_of [] = []
backends_of (p ∷ ps) = backend_of p (split_equals p) ∷ backends_of ps

unfoldable pub parse_backends_csv : Text → List Backend
unfolding split_csv backends_of
parse_backends_csv s = backends_of (split_csv s)
