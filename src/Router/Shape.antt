-- ===== src/Router/Shape.antt =====
-- What no step of internal/router changes: the configuration, and the names of the backends in order.
use velocity_gateway.Common.{
  ℕ, zero, suc, ◌≡◌, refl, ap, ◌∙◌, Bool, true, false, Text, List, [], ◌∷◌, modify, get_elem?, inl,
  inr, if◌then◌else◌, ◌==◌, ◌/◌, Option-cases, if_cases,
}
use velocity_gateway.Router.Backend.{Backend, mark_failure, mark_success, enter, leave}
use velocity_gateway.Router.State.{
  Router, backend_up, update, report, Probe, probe_passed, probe_failed, failed_metrics,
  record_health, check_one, unbuildable, unreachable, answered,
}
use velocity_gateway.Router.Dispatch.{
  Act, begins, gives_up, marks_failed, closes, probes, advances, act, acts, Attempt, Upstream,
  Reply, settle, do_once, after_failure, Error,
}

abbrev pub names : List Backend → List Text
names [] = []
names (b ∷ bs) = b.name ∷ names bs

pub record SameShape (r r' : Router) : Type 0 where
  pub same_cfg : r'.cfg ≡ r.cfg
  pub same_names : names r'.backends ≡ names r.backends

pub names-modify :
    (bs : List Backend) (k : ℕ) (f : Backend → Backend)
    → ((b : Backend) → (f b).name ≡ b.name)
    → names (modify bs k f) ≡ names bs
names-modify [] k f h = refl
names-modify (b ∷ bs) zero f h = ap (λ n. n ∷ names bs) (h b)
names-modify (b ∷ bs) (suc k) f h = ap (◌∷◌ b.name) (names-modify bs k f h)

pub SameShape-trans : {r s t : Router} → SameShape r s → SameShape s t → SameShape r t
SameShape-trans p q = record {
  same_cfg = q.same_cfg ∙ p.same_cfg;
  same_names = q.same_names ∙ p.same_names;
}

pub update-SameShape :
    (k : ℕ) (f : Backend → Backend) (r : Router)
    → ((b : Backend) → (f b).name ≡ b.name)
    → SameShape r (update k f r)
update-SameShape k f r h = record { same_cfg = refl; same_names = names-modify r.backends k f h }

-- Only the log differs.
relabel : (r s : Router) → s.cfg ≡ r.cfg → s.backends ≡ r.backends → SameShape r s
relabel r s c b = record { same_cfg = c; same_names = ap names b }

record_health-SameShape : (k : ℕ) (ok : Bool) (r : Router) → SameShape r (record_health k ok r)
unfolding record_health
record_health-SameShape k ok r = elim (Option-cases (get_elem? r.backends k)) [
  | inl e ↦ rw (e, record_health) (relabel r r refl refl)
  | inr (b, e) ↦ rw (e, record_health) (by_result ok b)
]
  where
    by_result :
        (ok : Bool) (b : Backend)
        → SameShape r (
            if ok
            then report (backend_up b.name true) (update k probe_passed r)
            else record (update k (probe_failed r.cfg.failure_threshold) r) {
              metrics = failed_metrics r.cfg.failure_threshold b r.metrics;
            })
    by_result true b = record {
      same_cfg = refl;
      same_names = names-modify r.backends k probe_passed (λ _. refl);
    }
    by_result false b = record {
      same_cfg = refl;
      same_names = names-modify r.backends k (probe_failed r.cfg.failure_threshold) (λ _. refl);
    }

check_one-SameShape : (k : ℕ) (p : Probe) (r : Router) → SameShape r (check_one k p r)
unfolding check_one
check_one-SameShape k unbuildable r = record_health-SameShape k false r
check_one-SameShape k unreachable r = record_health-SameShape k false r
check_one-SameShape k (answered status) r = record_health-SameShape k (status / 100 == 2) r

pub act-SameShape : (a : Act) (r : Router) → SameShape r (act a r)
unfolding act
act-SameShape (begins k) r = update-SameShape k enter r (λ _. refl)
act-SameShape (gives_up k) r = update-SameShape k leave r (λ _. refl)
act-SameShape (marks_failed k now) r = update-SameShape k (mark_failure now) r (λ _. refl)
act-SameShape (closes k name) r = SameShape-trans (update-SameShape k leave r (λ _. refl)) (record {
  same_cfg = refl;
  same_names = names-modify (modify r.backends k leave) k mark_success (λ _. refl);
})
act-SameShape (probes k p) r = check_one-SameShape k p r
act-SameShape advances r = relabel r _ refl refl

pub acts-SameShape : (as' : List Act) (r : Router) → SameShape r (acts as' r)
unfolding acts
acts-SameShape [] r = relabel r r refl refl
acts-SameShape (a ∷ rest) r = SameShape-trans (act-SameShape a r) (acts-SameShape rest (act a r))

pub settle-SameShape :
    (k : ℕ) (name : Text) (u : Upstream) (r : Router) → SameShape r (settle k name u r).0
unfolding settle
settle-SameShape k name (Upstream.unbuildable e) r = update-SameShape k leave r (λ _. refl)
settle-SameShape k name (Upstream.failed e) r = update-SameShape k leave r (λ _. refl)
settle-SameShape k name (Upstream.answered status body) r =
    if_cases (λ (p : Router × Reply). SameShape r p.0) (status / 100 == 5)
      (λ _. update-SameShape k leave r (λ _. refl)) (λ _. relabel r r refl refl)

pub do_once-SameShape :
    (k : ℕ) (name : Text) (env : Attempt) (r : Router) → SameShape r (do_once k name env r).0
unfolding do_once
do_once-SameShape k name env r = SameShape-trans (update-SameShape k enter r (λ _. refl)) (
    SameShape-trans (acts-SameShape env.during (update k enter r))
      (settle-SameShape k name env.upstream (acts env.during (update k enter r))))

pub after_failure-SameShape :
    (k : ℕ) (name : Text) (now : ℕ) (e : Error) (more : Bool) (r : Router)
    → SameShape r (after_failure k name now e more r)
unfolding after_failure
after_failure-SameShape k name now e true r = record {
  same_cfg = refl;
  same_names = names-modify r.backends k (mark_failure now) (λ _. refl);
}
after_failure-SameShape k name now e false r = record {
  same_cfg = refl;
  same_names = names-modify r.backends k (mark_failure now) (λ _. refl);
}
