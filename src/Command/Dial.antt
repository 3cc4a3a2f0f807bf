-- ===== src/Command/Dial.antt =====
-- What `buildCache` of cmd/velo/main.go makes of the rounds in which it dials PostgreSQL.
use velocity_gateway.Common.{
  ℕ, zero, suc, ◌+◌, ◌≤◌, ◌<◌, ◌≡◌, refl, sym, ap, ◌∙◌, subst, true, Text, codes, text_eq, ◌⊎◌, inl,
  inr, some, if◌then◌else◌, arith, Bool-cases, ◌==◌, ==_iff,
}
use velocity_gateway.Common.Int64.{Int64}
use velocity_gateway.Config.Types as Config
use velocity_gateway.Cache.Vector.{Floats}
use velocity_gateway.Cache.Store.{new_memory_store}
use velocity_gateway.Cache.Pgvector.{
  Database, PgvectorStore, Opened, opened, bad_dsn, no_connection, no_schema, new_pgvector_store,
}
use velocity_gateway.Command.Build.{
  Embedder, dim_of, build_embedder, pgvector, memory, CacheResult, disabled, no_store, built,
  with_store, of_dial, build_store, dial, build_cache,
}

abbrev IsFailure : {S : Type 0} → Opened S → Type 0
IsFailure (opened s) = ⊥
IsFailure _ = Unit {0}

module _ (m : Floats) {Conn S : Type 0} (dbs : ℕ → Database m.F32 m.F64 Conn S) (url : Text)
    (dim : Int64) where
  abbrev pub try : ℕ → Opened S
  try i = new_pgvector_store m (dbs i) url dim

  -- The rounds from `i` on, before `j`, failed.
  abbrev FailedFrom : ℕ → ℕ → Type 0
  FailedFrom i j = (k : ℕ) → i ≤ k → k < j → IsFailure (try k)

  -- A loop of rounds from `i` to `last` ends with the first that succeeds, or when all have failed.
  abbrev pub IsDialed : ℕ → ℕ → Opened S × ℕ → Type 0
  IsDialed i last p =
      ((j : ℕ) × (s : PgvectorStore S) × (j ≤ last)
        × FailedFrom i j
        × (try j ≡ opened s)
        × (p ≡ (opened s, j)))
      ⊎ (FailedFrom i (suc last) × (p.0 ≡ try last) × (p.1 ≡ suc last))

  one_failed : (i : ℕ) → IsFailure (try i) → FailedFrom i (suc i)
  one_failed i f k a b = subst (λ j. IsFailure (try j)) (omega (arith, a, b)) f

  later_failed : (i j : ℕ) → IsFailure (try i) → FailedFrom (suc i) j → FailedFrom i j
  later_failed i j f h k a b = elim (Bool-cases (k == i)) [
    | inl e ↦ subst (λ l. IsFailure (try l)) (sym ((==_iff k i).0 e)) f
    | inr n ↦ h k (ground (arith, a, n)) b
  ]

  succeeds :
      (i last : ℕ) (s : PgvectorStore S)
      → i ≤ last
      → try i ≡ opened s
      → IsDialed i last (opened s, i)
  succeeds i last s le e = inl (i, s, le, (λ k a b. absurd (omega (arith, a, b))), e, refl)

  fails_last : (i : ℕ) (o : Opened S) → IsFailure o → try i ≡ o → IsDialed i (i + 0) (o, suc i)
  fails_last i o f e =
      let same : i ≡ i + 0 = omega arith in
      inr (
        (λ k a b. one_failed i (subst IsFailure (sym e) f) k a (omega (arith, b))),
        sym e ∙ ap try same,
        omega arith,
      )

  last_round :
      (i : ℕ) (o : Opened S)
      → try i ≡ o
      → IsDialed i (i + 0) (elim o [ opened s ↦ (opened s, i) | failed ↦ (failed, suc i) ])
  last_round i (opened s) e = succeeds i (i + 0) s (omega arith) e
  last_round i bad_dsn e = fails_last i bad_dsn tt e
  last_round i no_connection e = fails_last i no_connection tt e
  last_round i (no_schema q pool) e = fails_last i (no_schema q pool) tt e

  fails_once :
      (i left : ℕ) (p : Opened S × ℕ)
      → IsFailure (try i)
      → IsDialed (suc i) (suc i + left) p
      → IsDialed i (i + suc left) p
  fails_once i left p f (inl (j, s, le, before, e, h)) =
      inl (j, s, omega (arith, le), later_failed i j f before, e, h)
  fails_once i left p f (inr (before, g, h)) = inr (
    (λ k a b. later_failed i (suc (suc i + left)) f before k a (omega (arith, b))),
    g ∙ ap try (later_last i left),
    omega (arith, h),
  )
    where
      later_last : (i left : ℕ) → suc i + left ≡ i + suc left
      later_last i left = omega arith

  round :
      (i left : ℕ) (o : Opened S) (rest : Opened S × ℕ)
      → try i ≡ o
      → IsDialed (suc i) (suc i + left) rest
      → IsDialed i (i + suc left) (elim o [ opened s ↦ (opened s, i) | failed ↦ rest ])
  round i left (opened s) rest e h = succeeds i (i + suc left) s (omega arith) e
  round i left bad_dsn rest e h = fails_once i left rest (subst IsFailure (sym e) tt) h
  round i left no_connection rest e h = fails_once i left rest (subst IsFailure (sym e) tt) h
  round i left (no_schema q pool) rest e h = fails_once i left rest (subst IsFailure (sym e) tt) h

  dial-IsDialed : (left i : ℕ) → IsDialed i (i + left) (dial m dbs url dim left i)
  unfolding dial
  dial-IsDialed zero i = last_round i (try i) refl
  dial-IsDialed (suc left) i =
      round i left (try i) (dial m dbs url dim left (suc i)) refl (dial-IsDialed left (suc i))

-- What `buildCache` has made of the ten rounds: the cache over the store of the first one that succeeded,
-- or, when all ten failed, the error of the last.
abbrev pub IsMade :
    (m : Floats) {Conn S : Type 0}
    → (ℕ → Database m.F32 m.F64 Conn S)
    → Config.Cache m.F64
    → Embedder
    → CacheResult m S
    → Type 0
IsMade m {Conn} {S} dbs cfg emb c =
    let opens = try m dbs cfg.postgres_url (dim_of emb) in
    ((j : ℕ) × (s : PgvectorStore S) × (j < 10)
      × ((k : ℕ) → 0 ≤ k → k < j → IsFailure (opens k))
      × (opens j ≡ opened s)
      × (c
          ≡ built (record {
            embedder = emb;
            store = pgvector s;
            threshold = cfg.similarity_threshold;
            ttl = cfg.ttl;
          })))
    ⊎ (((k : ℕ) → 0 ≤ k → k < 10 → IsFailure (opens k)) × (c ≡ no_store (opens 9)))

of_failed :
    (m : Floats) {Conn S : Type 0} (dbs : ℕ → Database m.F32 m.F64 Conn S)
    (cfg : Config.Cache m.F64) (emb : Embedder) (o : Opened S)
    → IsFailure o
    → of_dial m dbs cfg emb o ≡ no_store o
of_failed m dbs cfg emb (opened s) f = absurd f
of_failed m dbs cfg emb bad_dsn f = refl
of_failed m dbs cfg emb no_connection f = refl
of_failed m dbs cfg emb (no_schema q pool) f = refl

of_dial-IsMade :
    (m : Floats) {Conn S : Type 0} (dbs : ℕ → Database m.F32 m.F64 Conn S)
    (cfg : Config.Cache m.F64) (emb : Embedder) (p : Opened S × ℕ)
    → IsDialed m dbs cfg.postgres_url (dim_of emb) 0 9 p
    → IsMade m dbs cfg emb (of_dial m dbs cfg emb p.0)
of_dial-IsMade m dbs cfg emb p (inl (j, s, le, before, e, h)) =
    inl (j, s, omega (arith, le), before, e, ap (λ q. of_dial m dbs cfg emb q.0) h)
of_dial-IsMade m dbs cfg emb p (inr (before, e, h)) = inr (
  before,
  of_failed m dbs cfg emb p.0 (subst IsFailure (sym e) (before 9 (omega arith) (omega arith)))
      ∙ ap no_store e,
)

-- With a cache that is enabled, the store "pgvector" and an embedder that can be built, `buildCache` ends
-- after at most ten rounds: with the cache over the store that the first of ten rounds to succeed has
-- opened, all before it having failed; or, when all ten fail, with the error of the last.
pub build_cache_dials :
    (m : Floats) {Conn S : Type 0} (dbs : ℕ → Database m.F32 m.F64 Conn S)
    (cfg : Config.Cache m.F64) (emb : Embedder)
    → cfg.enabled ≡ true
    → text_eq cfg.store (codes "pgvector") ≡ true
    → build_embedder cfg ≡ some emb
    → IsMade m dbs cfg emb (build_cache m dbs cfg)
unfolding build_cache build_store
build_cache_dials m dbs cfg emb on pg made =
    subst (IsMade m dbs cfg emb)
      (sym (
        ap (λ b. if b then build_store m dbs cfg (build_embedder cfg) else disabled) on
        ∙ ap (build_store m dbs cfg) made
        ∙ ap
            (λ b.
              if b
              then of_dial m dbs cfg emb (dial m dbs cfg.postgres_url (dim_of emb) 9 0).0
              else with_store m dbs cfg emb (memory (new_memory_store m cfg.max_entries)))
            pg))
      (of_dial-IsMade m dbs cfg emb _ (dial-IsDialed m dbs cfg.postgres_url (dim_of emb) 9 0))
