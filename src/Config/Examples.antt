-- ===== src/Config/Examples.antt =====
-- Variables of a deployment, and the theorems on internal/config applied to them.
use velocity_gateway.Common.{◌≡◌, refl, Text, codes, List, [], ◌∷◌}
use velocity_gateway.Config.Types.{Backend}
use velocity_gateway.Config.Csv.{parse_backends_csv}
use velocity_gateway.Config.RoundTrip.{joined, all_written, parse_backends_csv-written}

abbrev keys : List Text
keys = codes "sk-1" ∷ codes "sk-2" ∷ []

abbrev pool : List Backend
pool =
    record { name = codes "a"; url = codes "u=1"; weight = 1 }
    ∷ record { name = codes "b"; url = []; weight = 1 }
    ∷ []

parse_backends_csv-written_example : parse_backends_csv (joined (all_written pool)) ≡ pool
parse_backends_csv-written_example = parse_backends_csv-written pool (
  ((refl, tt), (refl, tt), (refl, (refl, (refl, tt))), refl),
  (((refl, tt), (refl, tt), tt, refl), tt),
)
