-- ===== src/RateLimit/Admission.antt =====
-- How many calls `MemoryLimiter.Allow` grants a key in a span of time.
use velocity_gateway.Common.{
  ℕ, ◌+◌, ◌-◌, ◌*◌, ◌≤◌, ◌≡◌, refl, ap, sym, ◌∙◌, subst, true, Text, text_eq, text_eq_sound, List,
  [], ◌∷◌, Option, none, some, lookup, lookup-insert_self, arith, if◌then◌else◌, Bool-cases, inl,
  inr,
}
use velocity_gateway.Common.Int64.{Int64}
use velocity_gateway.RateLimit.Arith.{billion, exact}
use velocity_gateway.RateLimit.Bucket.{
  Config, effective, Answer, decision, err_no_key, Bucket, MemoryLimiter, bucket_or_full, bucket_of,
  refill, spend, take_token, allow,
}
use velocity_gateway.RateLimit.Isolation.{others_kept}
use native.Mathlib.Nat.{add-mul}
use velocity_gateway.RateLimit.Exact.{
  count, refill_lem, cap_le, cap_id, cap_grows, cap-enough, spend-enough, spend_lem, flow_le,
}

unfoldable pub grants : Answer → ℕ
grants (decision ok) = count ok
grants err_no_key = 0

-- How many of a sequence of calls, each a key and a time, are granted to one key.
unfoldable pub granted : Text → List (Text × ℕ) → MemoryLimiter exact → ℕ
granted key [] l = 0
granted key ((k, now) ∷ calls) l =
    let (l', answer) = allow exact k now l in
    let rest = granted key calls l' in if text_eq k key then grants answer + rest else rest

-- The calls come in the order of their times, between the two ends.
unfoldable pub Ordered : ℕ → List (Text × ℕ) → ℕ → Type 0
Ordered start [] end = start ≤ end
Ordered start ((k, now) ∷ calls) end = (start ≤ now) × Ordered now calls end

-- What a key may spend at a time.
level : Int64 → Int64 → ℕ → Option (Bucket exact) → ℕ
level rps burst now none = burst * billion
level rps burst now (some b) = refill exact rps burst now b

level_grows :
    (rps burst : Int64) (start now : ℕ) (o : Option (Bucket exact))
    → start ≤ now
    → level rps burst now o ≤ level rps burst start o + (now - start) * rps
unfolding level
level_grows rps burst start now none h = ground arith
level_grows rps burst start now (some b) h = omega (
  arith,
  refill_lem rps burst now b,
  refill_lem rps burst start b,
  cap_grows (burst * billion) (b.tokens + (start - b.last) * rps) (b.tokens + (now - b.last) * rps)
      ((now - start) * rps) (omega (arith, flow_le start now b.last rps h)),
)

level_le :
    (rps burst : Int64) (now : ℕ) (o : Option (Bucket exact))
    → level rps burst now o ≤ burst * billion
unfolding level
level_le rps burst now none = ground arith
level_le rps burst now (some b) =
    subst (λ x. x ≤ burst * billion) (sym (refill_lem rps burst now b))
      (cap_le (burst * billion) (b.tokens + (now - b.last) * rps))

-- A bucket that was just refilled holds its tokens.
level_now :
    (rps burst : Int64) (now t : ℕ)
    → level rps burst now (some (record { tokens = t; last = now })) ≤ t
unfolding level
level_now rps burst now t = omega (
  arith,
  refill_lem rps burst now (record { tokens = t; last = now }),
  cap_id (burst * billion) (t + (now - now) * rps),
  ap (λ x. x * rps) (none_passed now),
)
  where
    none_passed : (now : ℕ) → now - now ≡ 0
    none_passed now = omega arith

take-level :
    (rps burst : Int64) (now : ℕ) (b : Bucket exact)
    → let taken = take_token exact rps burst now b in
      count taken.1 * billion + level rps burst now (some taken.0) ≤ refill exact rps burst now b
unfolding take_token level
take-level rps burst now b = omega (
  arith,
  spend_lem (refill exact rps burst now b),
  level_now rps burst now (spend exact (refill exact rps burst now b)).0,
)

take_lem :
    (rps burst : Int64) (now : ℕ) (o : Option (Bucket exact))
    → let taken = take_token exact rps burst now (bucket_or_full exact burst now o) in
      count taken.1 * billion + level rps burst now (some taken.0) ≤ level rps burst now o
unfolding level bucket_or_full
take_lem rps burst now none = omega (
  arith,
  take-level rps burst now (record { tokens = burst * billion; last = now }),
  level_now rps burst now (burst * billion),
)
take_lem rps burst now (some b) = take-level rps burst now b

Ordered-le : (start : ℕ) (calls : List (Text × ℕ)) (end : ℕ) → Ordered start calls end → start ≤ end
unfolding Ordered
Ordered-le start [] end h = h
Ordered-le start ((k, now) ∷ calls) end (h, hs) = omega (arith, Ordered-le now calls end hs)

flow_split :
    (start now end rps : ℕ)
    → start ≤ now
    → now ≤ end
    → (now - start) * rps + (end - now) * rps ≡ (end - start) * rps
flow_split start now end rps h k =
    let apart : end - start ≡ (now - start) + (end - now) = omega arith in
    sym (ap (λ x. x * rps) apart ∙ add-mul (now - start) (end - now) rps)

module _ (cfg : Config) where
  abbrev rps : Int64
  rps = (effective cfg).0

  abbrev burst : Int64
  burst = (effective cfg).1

  -- A call for a key: what it grants leaves the key's level.
  allow-level :
      (key : Text) (now : ℕ) (bs : List (Text × Bucket exact))
      → let (l', answer) = allow exact key now (record { cfg = cfg; buckets = bs }) in
        grants answer * billion + level rps burst now (lookup key l'.buckets)
        ≤ level rps burst now (lookup key bs)
  unfolding allow grants bucket_of
  allow-level [] now bs = omega arith
  allow-level (c ∷ cs) now bs =
      rw (lookup-insert_self (c ∷ cs) _ bs) (take_lem rps burst now (lookup (c ∷ cs) bs))

  -- The configuration stays.
  allow-cfg :
      (key : Text) (now : ℕ) (bs : List (Text × Bucket exact))
      → let l' = (allow exact key now (record { cfg = cfg; buckets = bs })).0 in
        l' ≡ record { cfg = cfg; buckets = l'.buckets }
  unfolding allow
  allow-cfg [] now bs = refl
  allow-cfg (c ∷ cs) now bs = refl

  -- A call for any key, as the level of one key sees it.
  step-level :
      (k key : Text) (now : ℕ) (bs : List (Text × Bucket exact))
      → let (l', answer) = allow exact k now (record { cfg = cfg; buckets = bs }) in
        (if text_eq k key then grants answer else 0) * billion
          + level rps burst now (lookup key l'.buckets)
        ≤ level rps burst now (lookup key bs)
  step-level k key now bs =
      let l : MemoryLimiter exact = record { cfg = cfg; buckets = bs } in
      elim (Bool-cases (text_eq k key)) [
        | inl same ↦
            subst
              (λ x.
                (if text_eq k key then grants (allow exact k now l).1 else 0) * billion
                  + level rps burst now (lookup x (allow exact k now l).0.buckets)
                ≤ level rps burst now (lookup x bs))
              (text_eq_sound k key same) (rw same (allow-level k now bs))
        | inr other ↦
            ground (arith, ap (level rps burst now) (others_kept exact k key now l other).0)
      ]

  granted_at_most :
      (key : Text) (start end : ℕ) (calls : List (Text × ℕ)) (bs : List (Text × Bucket exact))
      → Ordered start calls end
      → granted key calls (record { cfg = cfg; buckets = bs }) * billion
        ≤ level rps burst start (lookup key bs) + (end - start) * rps
  unfolding Ordered granted
  granted_at_most key start end [] bs h = omega arith
  granted_at_most key start end ((k, now) ∷ calls) bs (h, hs) =
      let l : MemoryLimiter exact = record { cfg = cfg; buckets = bs } in
      let (l', answer) = allow exact k now l in
      let later : granted key calls l' * billion
          ≤ level rps burst now (lookup key l'.buckets) + (end - now) * rps =
        subst
          (λ x.
            granted key calls x * billion
            ≤ level rps burst now (lookup key l'.buckets) + (end - now) * rps)
          (sym (allow-cfg k now bs)) (granted_at_most key now end calls l'.buckets hs) in
      let grown = level_grows rps burst start now (lookup key bs) h in
      let step = step-level k key now bs in
      let span = flow_split start now end rps h (Ordered-le now calls end hs) in
      elim (Bool-cases (text_eq k key)) [ inl same ↦ ground arith | inr other ↦ ground arith ]

-- In any time-ordered sequence of calls for any keys, in whatever state the limiter starts, the calls
-- that `Allow` grants to one key number at most the effective burst and the effective rate times the
-- span of time, in exact arithmetic.
pub granted_bound :
    (key : Text) (start end : ℕ) (calls : List (Text × ℕ)) (l : MemoryLimiter exact)
    → Ordered start calls end
    → granted key calls l * billion
      ≤ (effective l.cfg).1 * billion + (end - start) * (effective l.cfg).0
granted_bound key start end calls l h = omega (
  arith,
  granted_at_most l.cfg key start end calls l.buckets h,
  level_le (effective l.cfg).0 (effective l.cfg).1 start (lookup key l.buckets),
)

-- A call for a key that is not empty and has a bucket is granted when the capacity is at least one token and the time
-- since the key's last call, times the effective rate, makes one token, in exact arithmetic.
pub allow_after_wait :
    (c : ℕ) (cs : Text) (now : ℕ) (l : MemoryLimiter exact) (b : Bucket exact)
    → lookup (c ∷ cs) l.buckets ≡ some b
    → 1 ≤ (effective l.cfg).1
    → billion ≤ (now - b.last) * (effective l.cfg).0
    → (allow exact (c ∷ cs) now l).1 ≡ decision true
unfolding allow bucket_of bucket_or_full take_token
allow_after_wait c cs now l b e one waited = rw e (
    ap decision (
      spend-enough _ (
        subst (λ x. billion ≤ x) (sym (refill_lem (effective l.cfg).0 (effective l.cfg).1 now b))
          (cap-enough ((effective l.cfg).1 * billion)
            (b.tokens + (now - b.last) * (effective l.cfg).0) (omega arith) (omega arith)))))
