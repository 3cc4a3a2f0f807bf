-- ===== src/Cache/StoreExamples.antt =====
-- A database of one table over whole numbers and a service that answers with one embedding, and the
-- theorems on internal/cache applied to them.
use mathlib.Core.Option.{some-injective}
use velocity_gateway.Common.{
  ℕ, ◌≤◌, ◌≡◌, refl, sym, ap, ◌∙◌, inl, inr, Bool, codes, Text, List, [], ◌∷◌, ◌++◌, Option, none,
  some, of_some, length, Among, Bool-cases, if◌then◌else◌, leb, arith,
}
use velocity_gateway.Cache.Vector.{cosine_dot}
use velocity_gateway.Cache.Semantic.{Cache, hit, lookup_prompt, store_prompt}
use velocity_gateway.Cache.Pgvector.{
  Row, Database, PgvectorStore, Documented, pg_ops, pg_put, pg_size, pg_nearest,
}
use velocity_gateway.Cache.Contract.{pg_laws, pg_laws-entries}
use velocity_gateway.Cache.Accounted.{Event, stored, looked_up, run}
use velocity_gateway.Cache.Provenance.{IsEarned, run-hit}
use velocity_gateway.Cache.OpenAi.{Service}
use velocity_gateway.Cache.Whole.{whole, east, north, entry}

abbrev Table : Type 0
Table = List (Row ℕ)

-- The first fresh row.
abbrev first_fresh : List ℕ → ℕ → Table → Option (Row ℕ × ℕ)
first_fresh vec fresh_until [] = none
first_fresh vec fresh_until (r ∷ rs) =
    let rest = first_fresh vec fresh_until rs in
    if leb fresh_until r.created_at then some (r, cosine_dot whole vec r.embedding) else rest

first_fresh_lem :
    (vec : List ℕ) (fresh_until : ℕ) (rows : Table) (r : Row ℕ) (sim : ℕ)
    → first_fresh vec fresh_until rows ≡ some (r, sim)
    → Among r rows × fresh_until ≤ r.created_at × (sim ≡ cosine_dot whole vec r.embedding)
first_fresh_lem vec fresh_until [] r sim h = cc
first_fresh_lem vec fresh_until (x ∷ xs) r sim h =
    let result : Bool → Option (Row ℕ × ℕ) = λ b.
      if b then some (x, cosine_dot whole vec x.embedding) else first_fresh vec fresh_until xs in
    elim (Bool-cases (leb fresh_until x.created_at)) [
      | inl fresh ↦
          of_some
            (λ (p : Row ℕ × ℕ).
              Among p.0 (x ∷ xs)
              × fresh_until ≤ p.0.created_at
              × (p.1 ≡ cosine_dot whole vec p.0.embedding))
            (sym (ap result fresh) ∙ h) (inl refl, ground (arith, fresh), refl)
      | inr stale ↦
          let (among, fresh, its) =
            first_fresh_lem vec fresh_until xs r sim (sym (ap result stale) ∙ h) in
          (inr among, fresh, its)
    ]

abbrev database : Database ℕ ℕ Text Table
database = record {
  parse_config = λ dsn. some dsn;
  connect = λ cfg most. some [];
  exec = λ q rows. some rows;
  close = λ rows. rows;
  select_nearest = λ vec fresh_until rows. some (first_fresh vec fresh_until rows);
  insert = λ r rows. some (rows ++ (r ∷ []));
  select_count = λ rows. some (length rows);
}

database-Documented : Documented whole database (cosine_dot whole)
database-Documented = record {
  rows = λ rows. rows;
  kept = λ r. r;
  kept-embedding = λ r. refl;
  kept-model = λ r. refl;
  kept-content = λ r. refl;
  insert-rows = λ r s s' h. sym (some-injective _ _ h);
  select-row =
      λ vec fresh_until s r sim h. first_fresh_lem vec fresh_until s r sim (some-injective _ _ h);
}

abbrev pg_cache : Cache ℕ ℕ (PgvectorStore Table)
pg_cache = record {
  embed = λ prompt. some (elim prompt [ [] ↦ north | c ∷ cs ↦ east ]);
  store = record { pool = []; dim = 2 };
  threshold = 2;
  ttl = 100;
  hits = 0;
  misses = 0;
  store_size = 0;
}

abbrev events : List Event
events = looked_up (codes "raft?") 30 ∷ stored (codes "raft") (entry 20) 20 ∷ []

hits_again :
    (lookup_prompt
      (pg_ops whole database)
      (codes "raft?")
      40
      (run (pg_ops whole database) events (some pg_cache))).1
    ≡ hit (entry 20)
unfolding run lookup_prompt store_prompt pg_put pg_size pg_nearest cosine_dot
hits_again = refl

run-hit_example :
    IsEarned whole
      (cosine_dot whole)
      (pg_ops whole database)
      (pg_laws whole (cosine_dot whole) database database-Documented)
      pg_cache
      events
      (codes "raft?")
      40
      (entry 20)
run-hit_example =
    run-hit whole (cosine_dot whole) (pg_ops whole database)
      (pg_laws whole (cosine_dot whole) database database-Documented) pg_cache events
      (codes "raft?") 40 (entry 20)
      (unfold database-Documented in
        pg_laws-entries whole (cosine_dot whole) database database-Documented pg_cache.store)
      hits_again

abbrev service : Service (ℕ × ℕ) Text
service = record {
  marshal = λ model input dim. input;
  new_request = λ body key. some body;
  send = λ r. some (record { status_code = 200; status = codes "200 OK"; body = r });
  decode = λ body. some (((1, 0) ∷ (2, 0) ∷ []) ∷ []);
}
