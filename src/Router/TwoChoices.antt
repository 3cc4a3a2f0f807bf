-- ===== src/Router/TwoChoices.antt =====
-- The power of two choices in `pick` of internal/router/router.go.
use velocity_gateway.Common.{
  ℕ, suc, ◌≤◌, ◌≡◌, ◌≢◌, true, false, Text, mem_text, List, [], ◌∷◌, some, get_elem?, Among,
}
use velocity_gateway.Common.Int64.{Int64, le64}
use velocity_gateway.Router.Backend.{Backend}
use velocity_gateway.Router.State.{Router}
use velocity_gateway.Router.Selection.{Pointer}

-- The indices rise along the list, from `i` on.
abbrev Rising : ℕ → List Pointer → Type 0
Rising i [] = Unit {0}
Rising i (p ∷ ps) = (i ≤ p.0) × Rising (suc p.0) ps

-- A candidate other than `p` that is no less loaded.
abbrev IsBeaten : List Pointer → Pointer → Pointer → Type 0
IsBeaten cs p d = Among d cs × (d.0 ≢ p.0) × (le64 p.1.in_flight d.1.in_flight ≡ true)

-- A healthy backend of the pool that is not excluded, other than `p` and no less loaded.
pub record IsRunnerUp (r : Router) (exclude : List Text) (p d : Pointer) : Type 0 where
  pub in_pool : get_elem? r.backends d.0 ≡ some d.1
  pub fresh : mem_text d.1.name exclude ≡ false
  pub healthy : d.1.healthy ≡ true
  pub other : d.0 ≢ p.0
  pub loaded : le64 p.1.in_flight d.1.in_flight ≡ true
