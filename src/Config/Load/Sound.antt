-- ===== src/Config/Load/Sound.antt =====
-- What holds of every configuration that is loaded, whatever the environment says.
use harbor_router.Common.{
  ℕ, zero, suc, ◌+◌, ◌%◌, ◌^◌, ◌≤◌, ◌<◌, ◌≡◌, inl, inr, false, Option, none, some, [], ◌∷◌, arith,
  if◌then◌else◌, Bool-cases, Option-cases, is_empty, length, Text, codes, ok, parse_u64,
  parse_u64-lt,
}
use harbor_router.Config.Durations.{take_component, components, parse_go_duration}
use harbor_router.Config.Env.{Process, env_duration, env_usize, parse_u32, env_u32, env_parsed}
use harbor_router.Config.Load.{Config, SecretString, secret, expose_secret, with_values, load}
use harbor_router.Config.Load.Refusals.{load_inverse}

-- A value that is parsed is within a bound that the parser and the default respect.
env_parsed-lt :
    (p : Process) (key : Text) (parse : Text → Option ℕ) (default bound : ℕ)
    → ((s : Text) (n : ℕ) → parse s ≡ some n → n < bound)
    → default < bound
    → env_parsed p key parse default < bound
env_parsed-lt p key parse default bound within fine = elim (Option-cases (p.var key)) [
  | inl unset ↦ ground arith
  | inr (v, set) ↦ elim (Option-cases (parse v)) [
    | inl bad ↦ ground arith
    | inr (n, read) ↦ ground (arith, within v n read)
  ]
]

components-lt :
    (fuel sum : ℕ) (s : Text) (n : ℕ) → sum < 2 ^ 64 → components fuel sum s ≡ some n → n < 2 ^ 64
unfolding components
components-lt fuel sum [] n h e = ground arith
components-lt zero sum (c ∷ s) n h e = cc
components-lt (suc fuel) sum (c ∷ s) n h e = elim (Option-cases (take_component (c ∷ s))) [
  | inl bad ↦ absurd (ground arith)
  | inr ((ms, rest), read) ↦
      components-lt fuel ((sum + ms) % 2 ^ 64) rest n (omega arith) (rw (read, components) at e)
]

parse_go_duration-lt : (s : Text) (n : ℕ) → parse_go_duration s ≡ some n → n < 2 ^ 64
unfolding parse_go_duration
parse_go_duration-lt s n e = elim (Bool-cases (is_empty s)) [
  | inl nothing ↦ absurd (ground arith)
  | inr something ↦
      components-lt (length s) 0 s n (omega arith) (rw (something, parse_go_duration) at e)
]

parse_u32-lt : (s : Text) (n : ℕ) → parse_u32 s ≡ some n → n < 2 ^ 32
unfolding parse_u32
parse_u32-lt s n e = ground (arith, Option-cases (parse_u64 s))

env_duration-lt :
    (p : Process) (key : Text) (default : ℕ)
    → default < 2 ^ 64
    → env_duration p key default < 2 ^ 64
unfolding env_duration
env_duration-lt p key default fine =
    env_parsed-lt p key parse_go_duration default (2 ^ 64) parse_go_duration-lt fine

env_usize-lt :
    (p : Process) (key : Text) (default : ℕ) → default < 2 ^ 64 → env_usize p key default < 2 ^ 64
unfolding env_usize
env_usize-lt p key default fine = env_parsed-lt p key parse_u64 default (2 ^ 64) parse_u64-lt fine

env_u32-lt :
    (p : Process) (key : Text) (default : ℕ) → default < 2 ^ 32 → env_u32 p key default < 2 ^ 32
unfolding env_u32
env_u32-lt p key default fine = env_parsed-lt p key parse_u32 default (2 ^ 32) parse_u32-lt fine

-- The machine integers and the durations are within their types.
pub record IsBounded (c : Config) : Type 0 where
  pub discovery_interval_bound : c.discovery_interval < 2 ^ 64
  pub resolver_timeout_bound : c.resolver_timeout < 2 ^ 64
  pub cache_ttl_bound : c.cache_ttl < 2 ^ 64
  pub negative_cache_ttl_bound : c.negative_cache_ttl < 2 ^ 64
  pub stale_while_revalidate_bound : c.stale_while_revalidate < 2 ^ 64
  pub circuit_breaker_threshold_bound : c.circuit_breaker_threshold < 2 ^ 32
  pub circuit_breaker_timeout_bound : c.circuit_breaker_timeout < 2 ^ 64
  pub retry_max_attempts_bound : c.retry_max_attempts < 2 ^ 32
  pub retry_base_delay_bound : c.retry_base_delay < 2 ^ 64
  pub max_idle_conns_per_host_bound : c.max_idle_conns_per_host < 2 ^ 64
  pub max_conns_per_host_bound : c.max_conns_per_host < 2 ^ 64
  pub idle_conn_timeout_bound : c.idle_conn_timeout < 2 ^ 64
  pub blob_read_timeout_bound : c.blob_read_timeout < 2 ^ 64
  pub cache_warmup_top_n_bound : c.cache_warmup_top_n < 2 ^ 64
  pub listen_backlog_bound : c.listen_backlog < 2 ^ 32
  pub max_fanout_projects_bound : c.max_fanout_projects < 2 ^ 64
  pub rate_limit_per_ip_bound : c.rate_limit_per_ip < 2 ^ 32

with_values-IsBounded :
    (p : Process) (url user password redis : Text) (db : ℕ)
    → IsBounded (with_values p url user password redis db)
unfolding with_values
with_values-IsBounded p url user password redis db = record {
  discovery_interval_bound = env_duration-lt p (codes "DISCOVERY_INTERVAL") 60000 (omega arith);
  resolver_timeout_bound = env_duration-lt p (codes "RESOLVER_TIMEOUT") 10000 (omega arith);
  cache_ttl_bound = env_duration-lt p (codes "CACHE_TTL") 300000 (omega arith);
  negative_cache_ttl_bound = env_duration-lt p (codes "NEGATIVE_CACHE_TTL") 30000 (omega arith);
  stale_while_revalidate_bound =
      env_duration-lt p (codes "STALE_WHILE_REVALIDATE") 60000 (omega arith);
  circuit_breaker_threshold_bound =
      env_u32-lt p (codes "CIRCUIT_BREAKER_THRESHOLD") 5 (omega arith);
  circuit_breaker_timeout_bound =
      env_duration-lt p (codes "CIRCUIT_BREAKER_TIMEOUT") 30000 (omega arith);
  retry_max_attempts_bound = env_u32-lt p (codes "RETRY_MAX_ATTEMPTS") 2 (omega arith);
  retry_base_delay_bound = env_duration-lt p (codes "RETRY_BASE_DELAY") 150 (omega arith);
  max_idle_conns_per_host_bound =
      env_usize-lt p (codes "MAX_IDLE_CONNS_PER_HOST") 512 (omega arith);
  max_conns_per_host_bound = env_usize-lt p (codes "MAX_CONNS_PER_HOST") 0 (omega arith);
  idle_conn_timeout_bound = env_duration-lt p (codes "IDLE_CONN_TIMEOUT") 90000 (omega arith);
  blob_read_timeout_bound = env_duration-lt p (codes "BLOB_READ_TIMEOUT") 60000 (omega arith);
  cache_warmup_top_n_bound = env_usize-lt p (codes "CACHE_WARMUP_TOP_N") 100 (omega arith);
  listen_backlog_bound = env_u32-lt p (codes "LISTEN_BACKLOG") 8192 (omega arith);
  max_fanout_projects_bound = env_usize-lt p (codes "MAX_FANOUT_PROJECTS") 50 (omega arith);
  rate_limit_per_ip_bound = env_u32-lt p (codes "RATE_LIMIT_PER_IP") 0 (omega arith);
}

-- What the components that use the configuration rely on.
pub record IsUsable (c : Config) : Type 0 where
  pub has_url : is_empty c.harbor_url ≡ false
  pub has_username : is_empty (expose_secret c.harbor_username) ≡ false
  pub has_password : is_empty (expose_secret c.harbor_password) ≡ false
  pub redis_auth :
      (s : SecretString) → c.redis_password ≡ some s → is_empty (expose_secret s) ≡ false
  pub db_le : c.redis_db ≤ 15
  pub bounded : IsBounded c

redis_auth_of :
    (redis : Text) (s : SecretString)
    → (if is_empty redis then none else some (secret redis)) ≡ some s
    → is_empty (expose_secret s) ≡ false
redis_auth_of [] s e = cc
redis_auth_of (c ∷ redis) (secret t) e = ground arith

pub load-IsUsable : (p : Process) (c : Config) → load p ≡ ok c → IsUsable c
unfolding with_values
load-IsUsable p c h =
    let (user, password, redis, made, e) = load_inverse p c h in
    rw e (record {
      has_url = made.has_url;
      has_username = made.has_user;
      has_password = made.has_password;
      redis_auth = redis_auth_of redis;
      db_le = ground (arith, made.has_db);
      bounded = with_values-IsBounded p _ user password redis _;
    })
