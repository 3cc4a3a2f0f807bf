-- ===== src/Config/Types.antt =====
-- The configuration structs of internal/config/config.go. Durations are nanoseconds in an int64;
-- the one float64 field takes its type from the parameter.
use velocity_gateway.Common.{Bool, List, Text}
use velocity_gateway.Common.Int64.{Int64}

pub record Server : Type 0 where
  pub addr : Text
  pub metrics_addr : Text
  pub read_timeout : Int64
  pub write_timeout : Int64

pub record Auth : Type 0 where
  pub api_keys : List Text

pub record Scheduler : Type 0 where
  pub enabled : Bool
  pub max_batch_size : Int64
  pub max_wait : Int64
  pub queue_capacity : Int64
  pub workers : Int64

pub record Cache (F : Type 0) : Type 0 where
  pub enabled : Bool
  pub store : Text
  pub postgres_url : Text
  pub embedder : Text
  pub embedder_dim : Int64
  pub openai_key : Text
  pub openai_model : Text
  pub similarity_threshold : F
  pub ttl : Int64
  pub max_entries : Int64

pub record RateLimit : Type 0 where
  pub enabled : Bool
  pub store : Text
  pub redis_addr : Text
  pub default_rps : Int64
  pub default_burst : Int64

pub record Backend : Type 0 where
  pub name : Text
  pub url : Text
  pub weight : Int64

pub record Router : Type 0 where
  pub strategy : Text
  pub health_check_path : Text
  pub health_interval : Int64
  pub health_timeout : Int64
  pub failure_threshold : Int64
  pub retry_attempts : Int64
  pub request_timeout : Int64
  pub backends : List Backend

pub record Logging : Type 0 where
  pub level : Text

pub record Config (F : Type 0) : Type 0 where
  pub server : Server
  pub auth : Auth
  pub scheduler : Scheduler
  pub cache : Cache F
  pub rate_limit : RateLimit
  pub router : Router
  pub logging : Logging
