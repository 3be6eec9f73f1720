-- ===== src/Config/Load.antt =====
-- `Config`, its `Clone` and `Debug`, and `Config::load` of src/config.rs.
pub mod Sound
pub mod Refusals
pub mod Redacted
use mathlib.Core.Option
use harbor_router.Common.{
  ℕ, ◌%◌, ◌^◌, Bool, true, false, ◌||◌, Option, none, some, List, [], ◌∷◌, ltb, if◌then◌else◌,
  is_empty, ◌++◌, print_u64, Text, codes, Outcome, ok, err, ◌>>=◌, ◌>>◌, bail_if,
}
use harbor_router.Config.Env.{
  Process, env_str_or_file, env_str, env_duration, env_usize, env_u32, env_bool,
}

pub data SecretString : Type 0 where
  secret : Text → SecretString

abbrev pub expose_secret : SecretString → Text
expose_secret (secret s) = s

pub record Config : Type 0 where
  pub harbor_url : Text
  pub harbor_username : SecretString
  pub harbor_password : SecretString
  pub discovery_interval : ℕ  -- milliseconds
  pub resolver_timeout : ℕ  -- milliseconds
  pub cache_ttl : ℕ  -- milliseconds
  pub negative_cache_ttl : ℕ  -- milliseconds
  pub stale_while_revalidate : ℕ  -- milliseconds
  pub circuit_breaker_threshold : ℕ  -- u32
  pub circuit_breaker_timeout : ℕ  -- milliseconds
  pub retry_max_attempts : ℕ  -- u32
  pub retry_base_delay : ℕ  -- milliseconds
  pub max_idle_conns_per_host : ℕ  -- usize
  pub max_conns_per_host : ℕ  -- usize
  pub idle_conn_timeout : ℕ  -- milliseconds
  pub blob_read_timeout : ℕ  -- milliseconds
  pub cache_warmup_top_n : ℕ  -- usize
  pub listen_backlog : ℕ  -- u32
  pub listen_addr : Text
  pub metrics_addr : Text
  pub proxy_project : Text
  pub max_fanout_projects : ℕ  -- usize
  pub http2_prior_knowledge : Bool
  pub rate_limit_per_ip : ℕ  -- u32
  pub redis_sentinels : Text
  pub redis_master_name : Text
  pub redis_password : Option SecretString
  pub redis_db : ℕ  -- u8
  pub redis_key_prefix : Text
  pub redis_tls : Bool
  pub log_level : Text
  pub log_format : Text
  pub enable_pprof : Bool

abbrev pub url_unset : Text
url_unset = codes "HARBOR_URL must be set"

abbrev pub credentials_unset : Text
credentials_unset =
    codes
      "HARBOR_USERNAME and HARBOR_PASSWORD must be set (via env var or *_FILE pointing to Vault-injected secret)"

abbrev pub db_out_of_range : ℕ → Text
db_out_of_range v = codes "REDIS_DB must be 0-15, got " ++ print_u64 v

-- The configuration, once the values that can fail are there.
unfoldable pub with_values :
    Process
    → (harbor_url harbor_username harbor_password redis_password : Text) (redis_db : ℕ) → Config
with_values p harbor_url harbor_username harbor_password redis_password redis_db = record {
  harbor_url = harbor_url;
  harbor_username = secret harbor_username;
  harbor_password = secret harbor_password;
  discovery_interval = env_duration p (codes "DISCOVERY_INTERVAL") 60000;
  resolver_timeout = env_duration p (codes "RESOLVER_TIMEOUT") 10000;
  cache_ttl = env_duration p (codes "CACHE_TTL") 300000;
  negative_cache_ttl = env_duration p (codes "NEGATIVE_CACHE_TTL") 30000;
  stale_while_revalidate = env_duration p (codes "STALE_WHILE_REVALIDATE") 60000;
  circuit_breaker_threshold = env_u32 p (codes "CIRCUIT_BREAKER_THRESHOLD") 5;
  circuit_breaker_timeout = env_duration p (codes "CIRCUIT_BREAKER_TIMEOUT") 30000;
  retry_max_attempts = env_u32 p (codes "RETRY_MAX_ATTEMPTS") 2;
  retry_base_delay = env_duration p (codes "RETRY_BASE_DELAY") 150;
  max_idle_conns_per_host = env_usize p (codes "MAX_IDLE_CONNS_PER_HOST") 512;
  max_conns_per_host = env_usize p (codes "MAX_CONNS_PER_HOST") 0;
  idle_conn_timeout = env_duration p (codes "IDLE_CONN_TIMEOUT") 90000;
  blob_read_timeout = env_duration p (codes "BLOB_READ_TIMEOUT") 60000;
  cache_warmup_top_n = env_usize p (codes "CACHE_WARMUP_TOP_N") 100;
  listen_backlog = env_u32 p (codes "LISTEN_BACKLOG") 8192;
  listen_addr = env_str p (codes "LISTEN_ADDR") (codes ":8080");
  metrics_addr = env_str p (codes "METRICS_ADDR") (codes ":9090");
  proxy_project = env_str p (codes "PROXY_PROJECT") (codes "proxy");
  max_fanout_projects = env_usize p (codes "MAX_FANOUT_PROJECTS") 50;
  http2_prior_knowledge = env_bool p (codes "HTTP2_PRIOR_KNOWLEDGE") false;
  rate_limit_per_ip = env_u32 p (codes "RATE_LIMIT_PER_IP") 0;
  redis_sentinels = env_str p (codes "REDIS_SENTINELS") [];
  redis_master_name = env_str p (codes "REDIS_MASTER_NAME") (codes "mymaster");
  redis_password = if is_empty redis_password then none else some (secret redis_password);
  redis_db = redis_db % 2 ^ 8;
  redis_key_prefix = env_str p (codes "REDIS_KEY_PREFIX") (codes "hr");
  redis_tls = env_bool p (codes "REDIS_TLS") false;
  log_level = env_str p (codes "LOG_LEVEL") (codes "info");
  log_format = env_str p (codes "LOG_FORMAT") (codes "pretty");
  enable_pprof = env_bool p (codes "ENABLE_PPROF") false;
}

-- The fields whose evaluation can fail are evaluated in the order of the source.
unfoldable pub load : Process → Outcome Config
load p = do
  let harbor_url = env_str p (codes "HARBOR_URL") (codes "http://harbor-core:80")
  harbor_username ← env_str_or_file p (codes "HARBOR_USERNAME")
  harbor_password ← env_str_or_file p (codes "HARBOR_PASSWORD")
  bail_if (is_empty harbor_url) url_unset
  bail_if (is_empty harbor_username || is_empty harbor_password) credentials_unset
  redis_password ← env_str_or_file p (codes "REDIS_PASSWORD")
  let redis_db = env_u32 p (codes "REDIS_DB") 0
  bail_if (ltb 15 redis_db) (db_out_of_range redis_db)
  ok (with_values p harbor_url harbor_username harbor_password redis_password redis_db)

unfoldable pub clone : Config → Config
clone c = record {
  harbor_url = c.harbor_url;
  harbor_username = secret (expose_secret c.harbor_username);
  harbor_password = secret (expose_secret c.harbor_password);
  discovery_interval = c.discovery_interval;
  resolver_timeout = c.resolver_timeout;
  cache_ttl = c.cache_ttl;
  negative_cache_ttl = c.negative_cache_ttl;
  stale_while_revalidate = c.stale_while_revalidate;
  circuit_breaker_threshold = c.circuit_breaker_threshold;
  circuit_breaker_timeout = c.circuit_breaker_timeout;
  retry_max_attempts = c.retry_max_attempts;
  retry_base_delay = c.retry_base_delay;
  max_idle_conns_per_host = c.max_idle_conns_per_host;
  max_conns_per_host = c.max_conns_per_host;
  idle_conn_timeout = c.idle_conn_timeout;
  blob_read_timeout = c.blob_read_timeout;
  cache_warmup_top_n = c.cache_warmup_top_n;
  listen_backlog = c.listen_backlog;
  listen_addr = c.listen_addr;
  metrics_addr = c.metrics_addr;
  proxy_project = c.proxy_project;
  max_fanout_projects = c.max_fanout_projects;
  http2_prior_knowledge = c.http2_prior_knowledge;
  rate_limit_per_ip = c.rate_limit_per_ip;
  redis_sentinels = c.redis_sentinels;
  redis_master_name = c.redis_master_name;
  redis_password = Option.map (λ s. secret (expose_secret s)) c.redis_password;
  redis_db = c.redis_db;
  redis_key_prefix = c.redis_key_prefix;
  redis_tls = c.redis_tls;
  log_level = c.log_level;
  log_format = c.log_format;
  enable_pprof = c.enable_pprof;
}

-- What the formatter is handed for a field.
pub data Shown : Type 0 where
  text : Text → Shown
  number : ℕ → Shown
  duration : ℕ → Shown
  flag : Bool → Shown

abbrev pub redacted : Shown
redacted = text (codes "[REDACTED]")

-- `Debug::fmt`: the fields in order, with what is shown of them.
unfoldable pub debug_fmt : Config → List (Text × Shown)
debug_fmt c =
    (codes "harbor_url", text c.harbor_url)
    ∷ (codes "harbor_username", redacted)
    ∷ (codes "harbor_password", redacted)
    ∷ (codes "discovery_interval", duration c.discovery_interval)
    ∷ (codes "resolver_timeout", duration c.resolver_timeout)
    ∷ (codes "cache_ttl", duration c.cache_ttl)
    ∷ (codes "negative_cache_ttl", duration c.negative_cache_ttl)
    ∷ (codes "stale_while_revalidate", duration c.stale_while_revalidate)
    ∷ (codes "circuit_breaker_threshold", number c.circuit_breaker_threshold)
    ∷ (codes "circuit_breaker_timeout", duration c.circuit_breaker_timeout)
    ∷ (codes "retry_max_attempts", number c.retry_max_attempts)
    ∷ (codes "retry_base_delay", duration c.retry_base_delay)
    ∷ (codes "max_idle_conns_per_host", number c.max_idle_conns_per_host)
    ∷ (codes "max_conns_per_host", number c.max_conns_per_host)
    ∷ (codes "idle_conn_timeout", duration c.idle_conn_timeout)
    ∷ (codes "blob_read_timeout", duration c.blob_read_timeout)
    ∷ (codes "cache_warmup_top_n", number c.cache_warmup_top_n)
    ∷ (codes "listen_backlog", number c.listen_backlog)
    ∷ (codes "listen_addr", text c.listen_addr)
    ∷ (codes "metrics_addr", text c.metrics_addr)
    ∷ (codes "proxy_project", text c.proxy_project)
    ∷ (codes "max_fanout_projects", number c.max_fanout_projects)
    ∷ (codes "http2_prior_knowledge", flag c.http2_prior_knowledge)
    ∷ (codes "rate_limit_per_ip", number c.rate_limit_per_ip)
    ∷ (codes "redis_sentinels", text c.redis_sentinels)
    ∷ (codes "redis_master_name", text c.redis_master_name)
    ∷ (codes "redis_password", redacted)
    ∷ (codes "redis_db", number c.redis_db)
    ∷ (codes "redis_key_prefix", text c.redis_key_prefix)
    ∷ (codes "redis_tls", flag c.redis_tls)
    ∷ (codes "log_level", text c.log_level)
    ∷ (codes "log_format", text c.log_format)
    ∷ (codes "enable_pprof", flag c.enable_pprof)
    ∷ []
