-- ===== src/Command/Examples.antt =====
-- A gateway that starts with a database which is ready at the third round, and without Redis.
use velocity_gateway.Common.{
  ℕ, ◌≡◌, refl, true, Text, codes, [], ◌∷◌, none, some, if◌then◌else◌, ltb, text_eq,
}
use velocity_gateway.Config.Types as Config
use velocity_gateway.Cache.Pgvector.{Database, opened, ensure_schema}
use velocity_gateway.Cache.Whole.{whole}
use velocity_gateway.Command.Build.{dial, hashing, build_embedder, build_cache}
use velocity_gateway.Command.Dial.{IsMade, build_cache_dials}

abbrev ready_at : ℕ → Database ℕ ℕ Text ℕ
ready_at i = record {
  parse_config = λ dsn. some dsn;
  connect = λ cfg most. if ltb i 2 then none else some 0;
  exec = λ q s. some s;
  close = λ s. s;
  select_nearest = λ vec fresh_until s. some none;
  insert = λ r s. some s;
  select_count = λ s. some s;
}

dials : dial whole ready_at (codes "postgres://") 8 9 0 ≡ (opened (record { pool = 0; dim = 8 }), 2)
unfolding dial ensure_schema
dials = refl

abbrev config : Config.Config ℕ
config = record {
  server = record {
    addr = codes ":8080";
    metrics_addr = codes ":9090";
    read_timeout = 0;
    write_timeout = 0;
  };
  auth = record { api_keys = [] };
  scheduler = record {
    enabled = true;
    max_batch_size = 8;
    max_wait = 0;
    queue_capacity = 0;
    workers = 0;
  };
  cache = record {
    enabled = true;
    store = codes "pgvector";
    postgres_url = codes "postgres://";
    embedder = codes "hash";
    embedder_dim = 8;
    openai_key = [];
    openai_model = [];
    similarity_threshold = 2;
    ttl = 0;
    max_entries = 0;
  };
  rate_limit = record {
    enabled = true;
    store = codes "redis";
    redis_addr = codes "redis:6379";
    default_rps = 5;
    default_burst = 10;
  };
  router = record {
    strategy = codes "round_robin";
    health_check_path = codes "/health";
    health_interval = 5_000_000_000;
    health_timeout = 0;
    failure_threshold = 3;
    retry_attempts = 2;
    request_timeout = 0;
    backends = record { name = codes "a"; url = codes "http://a"; weight = 1 } ∷ [];
  };
  logging = record { level = codes "info" };
}

build_cache_dials_example :
    IsMade whole ready_at config.cache (hashing 8) (build_cache whole ready_at config.cache)
build_cache_dials_example =
    build_cache_dials whole ready_at config.cache (hashing 8) refl (unfold text_eq in refl)
      (unfold build_embedder text_eq in refl)
