-- ===== src/Config.antt =====
-- internal/config/config.go and the configuration of internal/domain/types.go: the defaults, the
-- files, and the environment, which has the last word. The decoder of a TOML file, the test whether
-- a file exists and the join of paths are parameters. A list that may be nil is a list. `atoi` reads
-- numbers of any size.
pub mod Loading
use Prim.Native.Char.{Char, code}
use Prim.Native.String.{String}
use text.Mathlib.Text.{◌==◌ as str_eq}
use llmproxy.Common.{ℕ, Bool, true, false, List, [], ◌∷◌, Option, none, some, ◌==◌, if◌then◌else◌}
use llmproxy.Common.Int.{ℤ, pos}
use llmproxy.Common.Eq.{Dict, codes}
use llmproxy.Common.Decimal.{atoi}
use llmproxy.Domain.{RateLimitConfig, ModelNode, ApiKey, Result, ok, failed, endpoint_all}

pub record RedisConfig : Type 0 where
  pub addr : String
  pub password : String
  pub db : ℤ

pub record RabbitMqConfig : Type 0 where
  pub url : String

pub record CacheConfig : Type 0 where
  pub kind : String
  pub redis : RedisConfig

pub record MqConfig : Type 0 where
  pub kind : String
  pub redis : RedisConfig
  pub rabbit_mq : RabbitMqConfig

pub record ServerConfig : Type 0 where
  pub addr : String
  pub cors_origins : List String
  pub admin_token : String
  pub max_memory_mb : ℤ

pub record LoggingConfig : Type 0 where
  pub basic_max_rows : ℤ
  pub basic_max_days : ℤ
  pub basic_max_size_mb : ℤ
  pub detail_max_rows : ℤ
  pub detail_max_days : ℤ
  pub detail_max_size_mb : ℤ
  pub buffer_size : ℤ
  pub flush_interval_ms : ℤ

pub record QueueConfig : Type 0 where
  pub default_priority : ℤ
  pub max_queue_size : ℤ

pub record PoolConfig : Type 0 where
  pub pool_size : ℤ
  pub max_retry_attempts : ℤ
  pub retry_delay_ms : ℤ
  pub max_wait_time_sec : ℤ

-- `AppConfig` with the path of the database.
pub record Config : Type 0 where
  pub server : ServerConfig
  pub rate_limit : RateLimitConfig
  pub logging : LoggingConfig
  pub cache : CacheConfig
  pub mq : MqConfig
  pub queue : QueueConfig
  pub worker : PoolConfig
  pub providers : Dict String ModelNode
  pub api_keys : Dict String ApiKey
  pub db_path : String

abbrev no_redis : RedisConfig
no_redis = record { addr = ""; password = ""; db = pos 0 }

unfoldable pub defaults : Config
defaults = record {
  server = record {
    addr = ":8080";
    cors_origins = "*" ∷ [];
    admin_token = "";
    max_memory_mb = pos 1024;
  };
  rate_limit = record { tpm = pos 0; rpm = pos 0; max_retries = pos 2 };
  logging = record {
    basic_max_rows = pos 0;
    basic_max_days = pos 30;
    basic_max_size_mb = pos 8192;
    detail_max_rows = pos 0;
    detail_max_days = pos 7;
    detail_max_size_mb = pos 2048;
    buffer_size = pos 4096;
    flush_interval_ms = pos 500;
  };
  cache = record { kind = "memory"; redis = no_redis };
  mq = record { kind = "memory"; redis = no_redis; rabbit_mq = record { url = "" } };
  queue = record { default_priority = pos 0; max_queue_size = pos 10_000 };
  worker = record {
    pool_size = pos 10;
    max_retry_attempts = pos 3;
    retry_delay_ms = pos 100;
    max_wait_time_sec = pos 1800;
  };
  providers = [];
  api_keys = [];
  db_path = "proxyllm.db";
}

-- `strings.Split(v, ",")`: a comma ends a part.
prepend : Char → List String → List String
prepend c [] = String.◌∷◌ c String.[] ∷ []
prepend c (x ∷ xs) = String.◌∷◌ c x ∷ xs

unfoldable pub split_commas : String → List String
unfolding prepend
split_commas String.[] = String.[] ∷ []
split_commas (String.◌∷◌ c s) =
    let parts = split_commas s in if code c == 44 then String.[] ∷ parts else prepend c parts

-- `os.Getenv`: an unset variable is the empty text.
abbrev pub Environment : Type 0
Environment = String → String

-- The value of a variable, if it is set.
unfoldable pub text_or : String → String → String
text_or v old = if str_eq v "" then old else v

unfoldable pub parts_or : String → List String → List String
unfolding split_commas
parts_or v old = if str_eq v "" then old else split_commas v

-- `envInt`
unfoldable pub env_int : Environment → String → Option ℤ
unfolding atoi
env_int env name = if str_eq (env name) "" then none else atoi (codes (env name))

unfoldable pub int_or : Option ℤ → ℤ → ℤ
int_or none old = old
int_or (some n) old = n

unfoldable pub apply_redis : Environment → String → String → String → RedisConfig → RedisConfig
unfolding text_or int_or env_int
apply_redis env addr password db c = record {
  addr = text_or (env addr) c.addr;
  password = text_or (env password) c.password;
  db = int_or (env_int env db) c.db;
}

unfoldable pub apply_server : Environment → ServerConfig → ServerConfig
unfolding text_or parts_or int_or env_int
apply_server env c = record {
  addr = text_or (env "PROXYLLM_SERVER_ADDR") c.addr;
  cors_origins = parts_or (env "PROXYLLM_SERVER_CORS_ORIGINS") c.cors_origins;
  admin_token = text_or (env "PROXYLLM_SERVER_ADMIN_TOKEN") c.admin_token;
  max_memory_mb = int_or (env_int env "PROXYLLM_MAX_MEMORY_MB") c.max_memory_mb;
}

unfoldable pub apply_limits : Environment → RateLimitConfig → RateLimitConfig
unfolding int_or env_int
apply_limits env c = record {
  tpm = int_or (env_int env "PROXYLLM_RL_TPM") c.tpm;
  rpm = int_or (env_int env "PROXYLLM_RL_RPM") c.rpm;
  max_retries = int_or (env_int env "PROXYLLM_RL_MAX_RETRIES") c.max_retries;
}

unfoldable pub apply_logging : Environment → LoggingConfig → LoggingConfig
unfolding int_or env_int
apply_logging env c = record {
  basic_max_rows = int_or (env_int env "PROXYLLM_LOG_BASIC_MAX_ROWS") c.basic_max_rows;
  basic_max_days = int_or (env_int env "PROXYLLM_LOG_BASIC_MAX_DAYS") c.basic_max_days;
  basic_max_size_mb = int_or (env_int env "PROXYLLM_LOG_BASIC_MAX_SIZE_MB") c.basic_max_size_mb;
  detail_max_rows = int_or (env_int env "PROXYLLM_LOG_DETAIL_MAX_ROWS") c.detail_max_rows;
  detail_max_days = int_or (env_int env "PROXYLLM_LOG_DETAIL_MAX_DAYS") c.detail_max_days;
  detail_max_size_mb = int_or (env_int env "PROXYLLM_LOG_DETAIL_MAX_SIZE_MB") c.detail_max_size_mb;
  buffer_size = int_or (env_int env "PROXYLLM_LOG_BUFFER_SIZE") c.buffer_size;
  flush_interval_ms = int_or (env_int env "PROXYLLM_LOG_FLUSH_INTERVAL_MS") c.flush_interval_ms;
}

-- The assignments are to fields of their own, so that their order does not matter.
unfoldable pub apply_env : Environment → Config → Config
unfolding apply_redis apply_server apply_limits apply_logging text_or
apply_env env cfg = record cfg {
  server = apply_server env cfg.server;
  rate_limit = apply_limits env cfg.rate_limit;
  logging = apply_logging env cfg.logging;
  cache = record {
    kind = text_or (env "PROXYLLM_CACHE_TYPE") cfg.cache.kind;
    redis =
        apply_redis env "PROXYLLM_CACHE_REDIS_ADDR" "PROXYLLM_CACHE_REDIS_PASSWORD"
          "PROXYLLM_CACHE_REDIS_DB" cfg.cache.redis;
  };
  mq = record {
    kind = text_or (env "PROXYLLM_MQ_TYPE") cfg.mq.kind;
    redis =
        apply_redis env "PROXYLLM_MQ_REDIS_ADDR" "PROXYLLM_MQ_REDIS_PASSWORD" "PROXYLLM_MQ_REDIS_DB"
          cfg.mq.redis;
    rabbit_mq = record { url = text_or (env "PROXYLLM_MQ_RABBITMQ_URL") cfg.mq.rabbit_mq.url };
  };
  db_path = text_or (env "PROXYLLM_DB_PATH") cfg.db_path;
}

-- The last loops of `Load`.
unfoldable pub fill_providers : Dict String ModelNode → Dict String ModelNode
fill_providers [] = []
fill_providers ((id, node) ∷ m) =
    (
      id,
      record node {
        id = id;
        endpoint_type = if str_eq node.endpoint_type "" then endpoint_all else node.endpoint_type;
      },
    )
    ∷ fill_providers m

unfoldable pub fill_keys : Dict String ApiKey → Dict String ApiKey
fill_keys [] = []
fill_keys ((id, key) ∷ m) = (id, record key { id = id }) ∷ fill_keys m

-- The file system as the loader sees it: `decode` writes what a file holds over a configuration.
pub record Files : Type 0 where
  pub join : String → String → String
  pub exists : String → Bool
  pub decode : String → Config → Result Config

unfoldable pub load_file : Files → String → Config → Result Config
load_file fs path cfg = if fs.exists path then fs.decode path cfg else ok cfg

-- The next step of `Load`, if there was no error.
abbrev pub on_ok : Result Config → (Config → Result Config) → Result Config
on_ok (ok cfg) f = f cfg
on_ok (failed e) f = failed e

unfoldable pub finish_load : Files → Environment → String → Config → Config
unfolding apply_env fill_providers fill_keys
finish_load fs env dir cfg =
    let placed = record cfg {
      db_path = if str_eq cfg.db_path "proxyllm.db" then fs.join dir "proxyllm.db" else cfg.db_path;
    } in
    let set = apply_env env placed in
    record set { providers = fill_providers set.providers; api_keys = fill_keys set.api_keys }

unfoldable pub load : Files → Environment → String → Result Config
unfolding load_file finish_load
load fs env dir = on_ok (load_file fs (fs.join dir "config.toml") defaults) λ a.
    on_ok (load_file fs (fs.join dir "providers.toml") a)
      λ b. on_ok (load_file fs (fs.join dir "api_keys.toml") b) λ c. ok (finish_load fs env dir c)
