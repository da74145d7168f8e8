-- ===== src/Config/Loading.antt =====
-- What a loaded configuration satisfies, and what each variable of the environment decides of it.
use Prim.Native.String.{String}
use text.Mathlib.Text.{◌==◌ as str_eq}
use llmproxy.Common.{◌⊎◌, ◌≡◌, ◌≢◌, true, false, List, [], ◌∷◌, none, some, All, if◌then◌else◌}
use llmproxy.Common.Int.{ℤ}
use llmproxy.Common.Eq.{codes}
use llmproxy.Common.Decimal.{atoi}
use llmproxy.Domain.{ModelNode, GoError, Result, ok, failed}
use llmproxy.Config.{Config, defaults, Environment, split_commas, Files}

-- The variables with a text and those with a number, each with what it sets.
abbrev pub text_variables : List (String × (Config → String))
text_variables =
    ("PROXYLLM_DB_PATH", λ c. c.db_path)
    ∷ ("PROXYLLM_SERVER_ADDR", λ c. c.server.addr)
    ∷ ("PROXYLLM_SERVER_ADMIN_TOKEN", λ c. c.server.admin_token)
    ∷ ("PROXYLLM_CACHE_TYPE", λ c. c.cache.kind)
    ∷ ("PROXYLLM_CACHE_REDIS_ADDR", λ c. c.cache.redis.addr)
    ∷ ("PROXYLLM_CACHE_REDIS_PASSWORD", λ c. c.cache.redis.password)
    ∷ ("PROXYLLM_MQ_TYPE", λ c. c.mq.kind)
    ∷ ("PROXYLLM_MQ_REDIS_ADDR", λ c. c.mq.redis.addr)
    ∷ ("PROXYLLM_MQ_REDIS_PASSWORD", λ c. c.mq.redis.password)
    ∷ ("PROXYLLM_MQ_RABBITMQ_URL", λ c. c.mq.rabbit_mq.url)
    ∷ []

abbrev pub number_variables : List (String × (Config → ℤ))
number_variables =
    ("PROXYLLM_MAX_MEMORY_MB", λ c. c.server.max_memory_mb)
    ∷ ("PROXYLLM_RL_TPM", λ c. c.rate_limit.tpm)
    ∷ ("PROXYLLM_RL_RPM", λ c. c.rate_limit.rpm)
    ∷ ("PROXYLLM_RL_MAX_RETRIES", λ c. c.rate_limit.max_retries)
    ∷ ("PROXYLLM_LOG_BASIC_MAX_ROWS", λ c. c.logging.basic_max_rows)
    ∷ ("PROXYLLM_LOG_BASIC_MAX_DAYS", λ c. c.logging.basic_max_days)
    ∷ ("PROXYLLM_LOG_BASIC_MAX_SIZE_MB", λ c. c.logging.basic_max_size_mb)
    ∷ ("PROXYLLM_LOG_DETAIL_MAX_ROWS", λ c. c.logging.detail_max_rows)
    ∷ ("PROXYLLM_LOG_DETAIL_MAX_DAYS", λ c. c.logging.detail_max_days)
    ∷ ("PROXYLLM_LOG_DETAIL_MAX_SIZE_MB", λ c. c.logging.detail_max_size_mb)
    ∷ ("PROXYLLM_LOG_BUFFER_SIZE", λ c. c.logging.buffer_size)
    ∷ ("PROXYLLM_LOG_FLUSH_INTERVAL_MS", λ c. c.logging.flush_interval_ms)
    ∷ ("PROXYLLM_CACHE_REDIS_DB", λ c. c.cache.redis.db)
    ∷ ("PROXYLLM_MQ_REDIS_DB", λ c. c.mq.redis.db)
    ∷ []

-- What the environment decides of a configuration that was `before`: a variable that is not empty sets
-- its text or its origins, one that spells an integer of 64 bits sets its number, and any other leaves
-- what was there.
abbrev DecidesText : Environment → Config → Config → String × (Config → String) → Type 0
DecidesText env before after v =
    ((env v.0 ≢ "") × (v.1 after ≡ env v.0)) ⊎ ((env v.0 ≡ "") × (v.1 after ≡ v.1 before))

abbrev DecidesNumber : Environment → Config → Config → String × (Config → ℤ) → Type 0
DecidesNumber env before after v =
    ((n : ℤ) × (env v.0 ≢ "") × (atoi (codes (env v.0)) ≡ some n) × (v.1 after ≡ n))
    ⊎ (((env v.0 ≡ "") ⊎ (atoi (codes (env v.0)) ≡ none)) × (v.1 after ≡ v.1 before))

abbrev DecidesOrigins : Environment → Config → Config → Type 0
DecidesOrigins env before after =
    let v = env "PROXYLLM_SERVER_CORS_ORIGINS" in
    ((v ≢ "") × (after.server.cors_origins ≡ split_commas v))
    ⊎ ((v ≡ "") × (after.server.cors_origins ≡ before.server.cors_origins))

pub record Decides (env : Environment) (before after : Config) : Type 0 where
  pub texts : All (DecidesText env before after) text_variables
  pub numbers : All (DecidesNumber env before after) number_variables
  pub origins : DecidesOrigins env before after

-- A provider knows its key and what it serves.
pub record IsFilled (entry : String × ModelNode) : Type 0 where
  pub named : entry.1.id ≡ entry.0
  pub serving : entry.1.endpoint_type ≢ ""

-- A file that is not there leaves the configuration, and one that is there is decoded over it.
pub data Read (fs : Files) (path : String) (before after : Config) : Type 0 where
  absent : fs.exists path ≡ false → before ≡ after → Read fs path before after
  decoded : fs.exists path ≡ true → fs.decode path before ≡ ok after → Read fs path before after

-- The path of the database that stands if no variable names one.
abbrev pub placed : Files → String → Config → Config
placed fs dir c = record c {
  db_path = if str_eq c.db_path "proxyllm.db" then fs.join dir "proxyllm.db" else c.db_path;
}

-- What the three files make of the defaults, as the environment decides it; or the error of a file
-- that exists.
pub data Loaded (fs : Files) (env : Environment) (dir : String) : Result Config → Type 0 where
  loaded :
      {cfg : Config} (a b c : Config)
      → Read fs (fs.join dir "config.toml") defaults a
      → Read fs (fs.join dir "providers.toml") a b
      → Read fs (fs.join dir "api_keys.toml") b c
      → All IsFilled cfg.providers
      → All (λ entry. entry.1.id ≡ entry.0) cfg.api_keys
      → Decides env (placed fs dir c) cfg
      → Loaded fs env dir (ok cfg)
  broken :
      {e : GoError} (path : String) (before : Config)
      → fs.exists path ≡ true
      → fs.decode path before ≡ failed e
      → Loaded fs env dir (failed e)
