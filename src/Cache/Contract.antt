-- ===== src/Cache/Contract.antt =====
-- What internal/cache/cache.go relies on in a store, and that the store in memory and the one in
-- PostgreSQL keep it.
use mathlib.Core.Option.{some-injective}
use velocity_gateway.Common.{
  ℕ, ◌≤◌, ◌≡◌, refl, sym, ap, ◌∙◌, subst, ◌⊎◌, inl, inr, Bool, false, Text, List, [], ◌∷◌, ◌++◌,
  Option, none, some, All, All-take, All-append, All-intro, Bool-cases, Among, if_cases,
  if◌then◌else◌, ltb, length, arith,
}
use velocity_gateway.Cache.Vector.{Floats, cosine_dot}
use velocity_gateway.Cache.Store.{Entry, MemEntry, MemoryStore, nearest, put, sort_newest}
use velocity_gateway.Cache.Semantic.{StoreOps, memory_ops}
use velocity_gateway.Cache.Nearest.{NoNan, IsNearest, nearest-IsNearest}
use velocity_gateway.Cache.Eviction.{insert_newest-All}
use velocity_gateway.Cache.Pgvector.{
  Row, Database, PgvectorStore, Documented, pg_ops, pg_nearest, pg_put, scanned, entry_of, row_of,
}

module _ (m : Floats) (similarity : List m.F32 → List m.F32 → m.F64) where
  -- An entry as it was put, but for its time and its raw body.
  abbrev pub IsOf : List m.F32 → Entry → MemEntry m → Type 0
  IsOf vec e x = (x.vec ≡ vec) × (x.entry.model ≡ e.model) × (x.entry.content ≡ e.content)

  -- A fresh entry that answers a query.
  pub record Answers (vec : List m.F32) (threshold : m.F64) (fresh_until : ℕ) (found : Entry)
      (x : MemEntry m) : Type 0 where
    pub same : found ≡ x.entry
    pub fresh : fresh_until ≤ x.entry.created_at
    pub near : m.lt (similarity vec x.vec) threshold ≡ false

  -- A store returns only what it holds, and holds only what it held or was given.
  pub record StoreLaws {S : Type 0} (ops : StoreOps m.F32 m.F64 S) : Type 0 where
    pub entries : S → List (MemEntry m)
    pub nearest-entry :
        (vec : List m.F32) (threshold : m.F64) (fresh_until : ℕ) (s : S) (found : Entry)
        (sim : m.F64)
        → ops.nearest vec threshold fresh_until s ≡ some (some found, sim)
        → (x : MemEntry m) × Among x (entries s) × Answers vec threshold fresh_until found x
    pub put-entries :
        (vec : List m.F32) (prompt : Text) (e : Entry) (s s' : S)
        → ops.put vec prompt e s ≡ some s'
        → All (λ x. Among x (entries s) ⊎ IsOf vec e x) (entries s')

module _ (m : Floats) (nan : NoNan m) where
  memory_nearest :
      (vec : List m.F32) (threshold : m.F64) (fresh_until : ℕ) (s : MemoryStore m) (found : Entry)
      (sim : m.F64)
      → nearest m vec threshold fresh_until s ≡ (some found, sim)
      → (x : MemEntry m) × Among x s.entries
        × Answers m (cosine_dot m) vec threshold fresh_until found x
  memory_nearest vec threshold fresh_until s found sim h =
      let ((x, hit), enough, _) =
        subst (IsNearest m vec fresh_until threshold s.entries) h
          (nearest-IsNearest m vec threshold fresh_until s nan) in
      (
        x,
        hit.stored,
        record {
          same = hit.same;
          fresh = ground (arith, hit.fresh);
          near = subst (λ t. m.lt t threshold ≡ false) hit.its_similarity enough;
        },
      )

  sort_newest-All :
      (P : MemEntry m → Type 0) (xs : List (MemEntry m)) → All P xs → All P (sort_newest m xs)
  unfolding sort_newest
  sort_newest-All P [] h = tt
  sort_newest-All P (x ∷ xs) (hx, hs) =
      insert_newest-All P x (sort_newest m xs) hx (sort_newest-All P xs hs)

  put-All :
      (P : MemEntry m → Type 0) (vec : List m.F32) (e : Entry) (s : MemoryStore m)
      → All P s.entries
      → P (record { vec = vec; entry = e })
      → All P (put m vec e s).entries
  unfolding put
  put-All P vec e s hs h =
      let all = s.entries ++ (record { vec = vec; entry = e } ∷ []) in
      let each = All-append P s.entries (record { vec = vec; entry = e } ∷ []) hs (h, tt) in
      if_cases (λ (t : MemoryStore m). All P t.entries) (ltb s.max_size (length all))
        (λ _. All-take P s.max_size (sort_newest m all) (sort_newest-All P all each)) (λ _. each)

  -- The store in memory.
  pub memory_laws : StoreLaws m (cosine_dot m) (memory_ops m)
  memory_laws = record {
    entries = λ s. s.entries;
    nearest-entry = λ vec threshold fresh_until s found sim h.
        memory_nearest vec threshold fresh_until s found sim (some-injective _ _ h);
    put-entries = λ vec prompt e s s' h.
        subst
          (λ (t : MemoryStore m).
            All (λ x. Among x s.entries ⊎ IsOf m (cosine_dot m) vec e x) t.entries)
          (some-injective _ _ h)
          (put-All (λ x. Among x s.entries ⊎ IsOf m (cosine_dot m) vec e x) vec e s
            (All-intro s.entries _ (λ x h. inl h)) (inr (refl, refl, refl)));
  }

  pub memory_laws-entries : (s : MemoryStore m) → memory_laws.entries s ≡ s.entries
  unfolding memory_laws
  memory_laws-entries s = refl

module _ (m : Floats) (similarity : List m.F32 → List m.F32 → m.F64) {Config S : Type 0}
    (db : Database m.F32 m.F64 Config S) (documented : Documented m db similarity) where
  abbrev pg_entries : List (Row m.F32) → List (MemEntry m)
  pg_entries [] = []
  pg_entries (r ∷ rs) = record { vec = r.embedding; entry = entry_of m db r } ∷ pg_entries rs

  pg_entries-append :
      (rs qs : List (Row m.F32)) → pg_entries (rs ++ qs) ≡ pg_entries rs ++ pg_entries qs
  pg_entries-append [] qs = refl
  pg_entries-append (r ∷ rs) qs =
      ap (λ l. record { vec = r.embedding; entry = entry_of m db r } ∷ l) (pg_entries-append rs qs)

  abbrev returned : Option Entry → m.F64 → Option (Option Entry × m.F64)
  returned o sim = some (o, sim)

  none-ne-some : {found : Entry} {s t : m.F64} → ¬ (returned none s ≡ returned (some found) t)
  none-ne-some h = cc

  found_of :
      {e found : Entry} {s t : m.F64} → returned (some e) s ≡ returned (some found) t → e ≡ found
  found_of h = cc

  pg_entries-Among :
      (r : Row m.F32) (rs : List (Row m.F32))
      → Among r rs
      → Among (record { vec = r.embedding; entry = entry_of m db r }) (pg_entries rs)
  pg_entries-Among r [] h = absurd h
  pg_entries-Among r (x ∷ rs) (inl e) =
      inl (ap (λ (y : Row m.F32). record { vec = y.embedding; entry = entry_of m db y }) e)
  pg_entries-Among r (x ∷ rs) (inr h) = inr (pg_entries-Among r rs h)

  pg_nearest-entry :
      (vec : List m.F32) (threshold : m.F64) (fresh_until : ℕ) (pool : S)
      (o : Option (Option (Row m.F32 × m.F64))) (found : Entry) (sim : m.F64)
      → db.select_nearest vec fresh_until pool ≡ o
      → scanned m db threshold o ≡ some (some found, sim)
      → (x : MemEntry m) × Among x (pg_entries (documented.rows pool))
        × Answers m similarity vec threshold fresh_until found x
  unfolding scanned
  pg_nearest-entry vec threshold fresh_until pool none found sim q h = cc
  pg_nearest-entry vec threshold fresh_until pool (some none) found sim q h = cc
  pg_nearest-entry vec threshold fresh_until pool (some (some (r, sim'))) found sim q h =
      let (stored, fresh, its) = documented.select-row vec fresh_until pool r sim' q in
      let result : Bool → Option (Option Entry × m.F64) =
        λ b. if b then some (none, sim') else some (some (entry_of m db r), sim') in
      elim (Bool-cases (m.lt sim' threshold)) [
        | inl far ↦ absurd (none-ne-some (sym (ap result far) ∙ h))
        | inr near ↦ (
          record { vec = r.embedding; entry = entry_of m db r },
          pg_entries-Among r (documented.rows pool) stored,
          record {
            same = sym (found_of (sym (ap result near) ∙ h));
            fresh = fresh;
            near = subst (λ t. m.lt t threshold ≡ false) its near;
          },
        )
      ]

  put_rows :
      (vec : List m.F32) (prompt : Text) (e : Entry) (pool pool' : S)
      → db.insert (row_of m db vec prompt e) pool ≡ some pool'
      → All
          (λ x. Among x (pg_entries (documented.rows pool)) ⊎ IsOf m similarity vec e x)
          (pg_entries (documented.rows pool'))
  put_rows vec prompt e pool pool' h =
      let r = row_of m db vec prompt e in
      let held = pg_entries (documented.rows pool) in
      let new = documented.kept r in
      subst (All (λ x. Among x held ⊎ IsOf m similarity vec e x))
        (sym (
          ap pg_entries (documented.insert-rows r pool pool' h)
          ∙ pg_entries-append (documented.rows pool) (new ∷ [])))
        (All-append (λ x. Among x held ⊎ IsOf m similarity vec e x) held _
          (All-intro held _ (λ x k. inl k))
          (
            inr (documented.kept-embedding r, documented.kept-model r, documented.kept-content r),
            tt,
          ))

  pg_put-entries :
      (vec : List m.F32) (prompt : Text) (e : Entry) (s s' : PgvectorStore S) (o : Option S)
      → db.insert (row_of m db vec prompt e) s.pool ≡ o
      → (elim o [ none ↦ none | some pool ↦ some (record s { pool = pool }) ]) ≡ some s'
      → All
          (λ x. Among x (pg_entries (documented.rows s.pool)) ⊎ IsOf m similarity vec e x)
          (pg_entries (documented.rows s'.pool))
  pg_put-entries vec prompt e s s' none q h = cc
  pg_put-entries vec prompt e s s' (some pool) q h =
      subst
        (λ (t : PgvectorStore S).
          All (λ x. Among x (pg_entries (documented.rows s.pool)) ⊎ IsOf m similarity vec e x)
            (pg_entries (documented.rows t.pool)))
        (some-injective _ _ h) (put_rows vec prompt e s.pool pool q)

  -- The store in PostgreSQL.
  pub pg_laws : StoreLaws m similarity (pg_ops m db)
  unfolding pg_nearest pg_put
  pg_laws = record {
    entries = λ s. pg_entries (documented.rows s.pool);
    nearest-entry = λ vec threshold fresh_until s found sim h.
        pg_nearest-entry vec threshold fresh_until s.pool (db.select_nearest vec fresh_until s.pool)
          found sim refl h;
    put-entries = λ vec prompt e s s' h.
        pg_put-entries vec prompt e s s' (db.insert (row_of m db vec prompt e) s.pool) refl h;
  }

  pub pg_laws-entries :
      (s : PgvectorStore S) → pg_laws.entries s ≡ pg_entries (documented.rows s.pool)
  unfolding pg_laws
  pg_laws-entries s = refl
