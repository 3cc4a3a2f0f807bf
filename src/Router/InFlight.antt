-- ===== src/Router/InFlight.antt =====
-- The in-flight counters of internal/router: what `Do` and `Close` leave on them.
use velocity_gateway.Common.{
  ℕ, zero, suc, ◌+◌, ◌/◌, ◌%◌, ◌<◌, ◌≡◌, refl, ap, Bool, true, false, Text, List, [], ◌∷◌, length,
  modify, get_elem?, if◌then◌else◌, ◌==◌, arith, if_cases, Option-cases, inl, inr,
}
use velocity_gateway.Common.Int64.{Int64, add64, modulus, minus_one}
use velocity_gateway.Router.Backend.{Backend, mark_failure, mark_success, enter, leave}
use velocity_gateway.Router.State.{
  Router, update, Probe, unbuildable, unreachable, answered, probe_passed, probe_failed,
  record_health, check_one,
}
use velocity_gateway.Router.Dispatch.{
  Act, begins, gives_up, marks_failed, closes, probes, advances, act, acts, on_close, Attempt,
  Upstream, Reply, response, error, Error, settle, do_once, after_failure,
}
use velocity_gateway.Router.Shape.{
  names, SameShape, update-SameShape, act-SameShape, acts-SameShape,
}

-- The counter of the backend at an index, 0 out of range.
abbrev pub load : ℕ → List Backend → Int64
load k [] = 0
load zero (b ∷ bs) = b.in_flight
load (suc k) (b ∷ bs) = load k bs

abbrev pub load_of : ℕ → Router → Int64
load_of k r = load k r.backends

-- A write that adds `w` to the counter of the backend at `j`.
load-modify_add :
    (k j : ℕ) (w : Int64) (f : Backend → Backend) (bs : List Backend)
    → ((b : Backend) → (f b).in_flight ≡ add64 b.in_flight w)
    → k < length bs
    → load k (modify bs j f) ≡ (if k == j then add64 (load k bs) w else load k bs)
load-modify_add k j w f [] h lt = elim lt [ ]
load-modify_add zero zero w f (b ∷ bs) h lt = h b
load-modify_add zero (suc j) w f (b ∷ bs) h lt = ground arith
load-modify_add (suc k) zero w f (b ∷ bs) h lt = ground arith
load-modify_add (suc k) (suc j) w f (b ∷ bs) h lt =
    ground (arith, load-modify_add k j w f bs h (omega arith))

load-modify_same :
    (k j : ℕ) (f : Backend → Backend) (bs : List Backend)
    → ((b : Backend) → (f b).in_flight ≡ b.in_flight)
    → load k (modify bs j f) ≡ load k bs
load-modify_same k j f [] h = refl
load-modify_same zero zero f (b ∷ bs) h = h b
load-modify_same zero (suc j) f (b ∷ bs) h = refl
load-modify_same (suc k) zero f (b ∷ bs) h = refl
load-modify_same (suc k) (suc j) f (b ∷ bs) h = load-modify_same k j f bs h

-- What an action adds to the counter of backend `k`.
abbrev gain : ℕ → Act → Int64
gain k (begins j) = if k == j then 1 else 0
gain k (gives_up j) = if k == j then minus_one else 0
gain k (closes j name) = if k == j then minus_one else 0
gain k _ = 0

abbrev pub net : ℕ → List Act → Int64
net k [] = 0
net k (a ∷ rest) = add64 (gain k a) (net k rest)

length-names : (bs : List Backend) → length (names bs) ≡ length bs
length-names [] = refl
length-names (b ∷ bs) = ap suc (length-names bs)

-- A step that keeps the names keeps an index in range.
pub in_range :
    (k : ℕ) (r r' : Router) → SameShape r r' → k < length r.backends → k < length r'.backends
in_range k r r' s h =
    omega (arith, ap length s.same_names, length-names r.backends, length-names r'.backends)

abbrev pub Moves : ℕ → Router → Int64 → Router → Type 0
Moves k r w r' = load_of k r' % modulus ≡ (load_of k r + w) % modulus

pub add-Moves :
    (k j : ℕ) (w : Int64) (f : Backend → Backend) (r : Router)
    → ((b : Backend) → (f b).in_flight ≡ add64 b.in_flight w)
    → k < length r.backends
    → Moves k r (if k == j then w else 0) (update j f r)
add-Moves k j w f r h lt = ground (arith, load-modify_add k j w f r.backends h lt)

same-Moves :
    (k j : ℕ) (f : Backend → Backend) (r : Router)
    → ((b : Backend) → (f b).in_flight ≡ b.in_flight)
    → Moves k r 0 (update j f r)
same-Moves k j f r h = omega (arith, load-modify_same k j f r.backends h)

record_health-Moves : (k j : ℕ) (ok : Bool) (r : Router) → Moves k r 0 (record_health j ok r)
unfolding record_health
record_health-Moves k j true r = elim (Option-cases (get_elem? r.backends j)) [
  | inl e ↦ rw (e, record_health) (omega arith)
  | inr (b, e) ↦ rw (e, record_health) (same-Moves k j probe_passed r (λ _. refl))
]
record_health-Moves k j false r = elim (Option-cases (get_elem? r.backends j)) [
  | inl e ↦ rw (e, record_health) (omega arith)
  | inr (b, e) ↦
      rw (e, record_health) (same-Moves k j (probe_failed r.cfg.failure_threshold) r (λ _. refl))
]

check_one-Moves : (k j : ℕ) (p : Probe) (r : Router) → Moves k r 0 (check_one j p r)
unfolding check_one
check_one-Moves k j unbuildable r = record_health-Moves k j false r
check_one-Moves k j unreachable r = record_health-Moves k j false r
check_one-Moves k j (answered status) r = record_health-Moves k j (status / 100 == 2) r

pub on_close-Moves :
    (k j : ℕ) (name : Text) (r : Router)
    → k < length r.backends
    → Moves k r (if k == j then minus_one else 0) (on_close j name r)
unfolding on_close
on_close-Moves k j name r lt =
    let left : Router = update j leave r in
    let a = add-Moves k j minus_one leave r (λ _. refl) lt in
    let b = same-Moves k j mark_success left (λ _. refl) in omega (arith, a, b)

pub act-Moves :
    (k : ℕ) (a : Act) (r : Router) → k < length r.backends → Moves k r (gain k a) (act a r)
unfolding act
act-Moves k (begins j) r lt = add-Moves k j 1 enter r (λ _. refl) lt
act-Moves k (gives_up j) r lt = add-Moves k j minus_one leave r (λ _. refl) lt
act-Moves k (marks_failed j now) r lt = same-Moves k j (mark_failure now) r (λ _. refl)
act-Moves k (closes j name) r lt = on_close-Moves k j name r lt
act-Moves k (probes j p) r lt = check_one-Moves k j p r
act-Moves k advances r lt = omega arith

pub acts-Moves :
    (k : ℕ) (todo : List Act) (r : Router)
    → k < length r.backends
    → Moves k r (net k todo) (acts todo r)
unfolding acts
acts-Moves k [] r lt = omega arith
acts-Moves k (a ∷ rest) r lt =
    let here = act-Moves k a r lt in
    let later = acts-Moves k rest (act a r) (in_range k r (act a r) (act-SameShape a r) lt) in
    omega (arith, here, later)

-- What a reply takes back from the counter of the backend that was entered.
abbrev pub outgo : ℕ → ℕ → Reply → Int64
outgo k j (error e) = if k == j then minus_one else 0
outgo k j (response resp) = 0

pub settle-Moves :
    (k j : ℕ) (name : Text) (u : Upstream) (r : Router)
    → k < length r.backends
    → Moves k r (outgo k j (settle j name u r).1) (settle j name u r).0
unfolding settle
settle-Moves k j name (Upstream.unbuildable e) r lt = add-Moves k j minus_one leave r (λ _. refl) lt
settle-Moves k j name (Upstream.failed e) r lt = add-Moves k j minus_one leave r (λ _. refl) lt
settle-Moves k j name (Upstream.answered status body) r lt =
    if_cases (λ (p : Router × Reply). Moves k r (outgo k j p.1) p.0) (status / 100 == 5)
      (λ _. add-Moves k j minus_one leave r (λ _. refl) lt) (λ _. omega arith)

pub do_once-Moves :
    (k j : ℕ) (name : Text) (env : Attempt) (r : Router)
    → k < length r.backends
    → net k env.during ≡ 0
    → Moves k r
        ((if k == j then 1 else 0) + outgo k j (do_once j name env r).1)
        (do_once j name env r).0
unfolding do_once
do_once-Moves k j name env r lt quiet =
    let entered : Router = update j enter r in
    let worked = acts env.during entered in
    let shape = update-SameShape j enter r (λ _. refl) in
    let lt' = in_range k r entered shape lt in
    let lt'' = in_range k entered worked (acts-SameShape env.during entered) lt' in
    let a = add-Moves k j 1 enter r (λ _. refl) lt in
    let b = acts-Moves k env.during entered lt' in
    let c = settle-Moves k j name env.upstream worked lt'' in omega (arith, a, b, c, quiet)

pub after_failure-Moves :
    (k j : ℕ) (name : Text) (now : ℕ) (e : Error) (more : Bool) (r : Router)
    → Moves k r 0 (after_failure j name now e more r)
unfolding after_failure
after_failure-Moves k j name now e true r = same-Moves k j (mark_failure now) r (λ _. refl)
after_failure-Moves k j name now e false r = same-Moves k j (mark_failure now) r (λ _. refl)
