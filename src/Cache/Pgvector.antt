-- ===== src/Cache/Pgvector.antt =====
-- internal/cache/pgvector_store.go: the store in PostgreSQL. The database is a parameter: its queries are
-- functions on a state of its own, and what is documented of them is a record of hypotheses.
use velocity_gateway.Common.{
  ℕ, ◌≤◌, ◌≡◌, Text, List, [], ◌∷◌, ◌++◌, Option, none, some, Among, if◌then◌else◌,
}
use velocity_gateway.Common.Int64.{Int64}
use velocity_gateway.Cache.Vector.{Floats}
use velocity_gateway.Cache.Store.{Entry}
use velocity_gateway.Cache.Semantic.{StoreOps}

-- A row of the table `velo_cache`; `raw` may be NULL.
pub record Row (F32 : Type 0) : Type 0 where
  pub prompt : Text
  pub embedding : List F32
  pub model : Text
  pub content : Text
  pub raw : Option Text
  pub created_at : ℕ

-- The statements of `ensureSchema`; the table has vectors of a dimension.
pub data Statement : Type 0 where
  create_extension : Statement
  create_table : Int64 → Statement
  create_embedding_index create_created_index : Statement

-- pgx on a database: `none` is an error, `some none` of the query is no row.
pub record Database (F32 F64 Config S : Type 0) : Type 0 where
  pub parse_config : Text → Option Config
  pub connect : Config → ℕ → Option S
  pub exec : Statement → S → Option S
  pub close : S → S
  pub select_nearest : List F32 → ℕ → S → Option (Option (Row F32 × F64))
  pub insert : Row F32 → S → Option S
  pub select_count : S → Option ℕ

pub record PgvectorStore (S : Type 0) : Type 0 where
  pub pool : S
  pub dim : Int64

-- What `NewPgvectorStore` returns; a pool whose schema failed is closed.
pub data Opened (S : Type 0) : Type 0 where
  opened : PgvectorStore S → Opened S
  bad_dsn no_connection : Opened S
  no_schema : Statement → S → Opened S

module _ (m : Floats) {Config S : Type 0} (db : Database m.F32 m.F64 Config S) where
  abbrev statements : Int64 → List Statement
  statements dim =
      create_extension ∷ create_table dim ∷ create_embedding_index ∷ create_created_index ∷ []

  -- The loop of `ensureSchema`, and what follows in `NewPgvectorStore`.
  unfoldable pub ensure_schema : Int64 → List Statement → S → Opened S
  ensure_schema dim [] pool = opened (record { pool = pool; dim = dim })
  ensure_schema dim (q ∷ qs) pool = elim (db.exec q pool) [
    | none ↦ no_schema q (db.close pool)
    | some pool' ↦ ensure_schema dim qs pool'
  ]

  abbrev connected : Int64 → Option S → Opened S
  connected dim none = no_connection
  connected dim (some pool) = ensure_schema dim (statements dim) pool

  abbrev configured : Int64 → Option Config → Opened S
  configured dim none = bad_dsn
  configured dim (some cfg) = connected dim (db.connect cfg 8)

  abbrev pub new_pgvector_store : Text → Int64 → Opened S
  new_pgvector_store dsn dim = configured dim (db.parse_config dsn)

  abbrev raw_of : Option Text → Text
  raw_of none = []
  raw_of (some raw) = raw

  abbrev pub entry_of : Row m.F32 → Entry
  entry_of r = record {
    model = r.model;
    content = r.content;
    raw = raw_of r.raw;
    created_at = r.created_at;
  }

  unfoldable pub scanned :
      m.F64 → Option (Option (Row m.F32 × m.F64)) → Option (Option Entry × m.F64)
  scanned threshold none = none
  scanned threshold (some none) = some (none, m.zero)
  scanned threshold (some (some (r, sim))) =
      if m.lt sim threshold then some (none, sim) else some (some (entry_of r), sim)

  unfoldable pub pg_nearest :
      List m.F32 → m.F64 → ℕ → PgvectorStore S → Option (Option Entry × m.F64)
  unfolding scanned
  pg_nearest vec threshold fresh_until s =
      scanned threshold (db.select_nearest vec fresh_until s.pool)

  abbrev pub row_of : List m.F32 → Text → Entry → Row m.F32
  row_of vec prompt e = record {
    prompt = prompt;
    embedding = vec;
    model = e.model;
    content = e.content;
    raw = elim e.raw [ [] ↦ none | c ∷ cs ↦ some (c ∷ cs) ];
    created_at = e.created_at;
  }

  unfoldable pub pg_put : List m.F32 → Text → Entry → PgvectorStore S → Option (PgvectorStore S)
  pg_put vec prompt e s = elim (db.insert (row_of vec prompt e) s.pool) [
    | none ↦ none
    | some pool ↦ some (record s { pool = pool })
  ]

  unfoldable pub pg_size : PgvectorStore S → Option ℕ
  pg_size s = db.select_count s.pool

  abbrev pub pg_ops : StoreOps m.F32 m.F64 (PgvectorStore S)
  pg_ops = record { nearest = pg_nearest; put = pg_put; size = pg_size }

  -- What is documented of the queries. An index of the kind ivfflat is approximate, so that the query
  -- may miss a row; a row is stored with its time to the microsecond and its JSON in a normal form.
  pub record Documented (similarity : List m.F32 → List m.F32 → m.F64) : Type 0 where
    pub rows : S → List (Row m.F32)
    pub kept : Row m.F32 → Row m.F32
    pub kept-embedding : (r : Row m.F32) → (kept r).embedding ≡ r.embedding
    pub kept-model : (r : Row m.F32) → (kept r).model ≡ r.model
    pub kept-content : (r : Row m.F32) → (kept r).content ≡ r.content
    pub insert-rows :
        (r : Row m.F32) (s s' : S) → db.insert r s ≡ some s' → rows s' ≡ rows s ++ (kept r ∷ [])
    pub select-row :
        (vec : List m.F32) (fresh_until : ℕ) (s : S) (r : Row m.F32) (sim : m.F64)
        → db.select_nearest vec fresh_until s ≡ some (some (r, sim))
        → Among r (rows s) × fresh_until ≤ r.created_at × (sim ≡ similarity vec r.embedding)
