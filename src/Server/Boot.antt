-- ===== src/Server/Boot.antt =====
-- The wiring of src/main.rs: from the environment of the process to the components and the listeners
-- on which it serves. The tasks that it starts are not modelled here.
pub mod Configured
mod Examples
use harbor_router.Common.{
  ℕ, ◌/◌, ◌++◌, Bool, true, false, not, Option, none, some, List, [], ◌∷◌, ltb, if◌then◌else◌,
  is_empty, starts_with, text_eq, Text, codes, Outcome, ok, err, ◌>>=◌,
}
use harbor_router.Breaker.{CircuitBreaker, new}
use harbor_router.Cache.{CacheBackend}
use harbor_router.Cache.Sentinel.{Sentinel, Connected, from_sentinel}
use harbor_router.Config.Env.{Process}
use harbor_router.Config.Load.{Config, SecretString, expose_secret, load}
use harbor_router.Resolver.World.{Settings, World}
use harbor_router.Handlers.Blobs.{Gateway}
use harbor_router.Server.{Limiter, Server}
use harbor_router.Server.Clients.{HttpLibrary, discovery_settings, resolver_settings, blob_settings}
use harbor_router.Server.Sockets.{Sockets, create_optimized_listener}

-- Libraries: base64, the HTTP client, the sockets and the client of Redis.
pub record Libraries : Type 1 where
  pub encode : Text → Text
  pub http : HttpLibrary
  pub net : Sockets
  pub sentinel : Sentinel

unfoldable pub log_filter : (log_level : Text) → Text
log_filter log_level =
    if text_eq log_level (codes "debug")
    then codes "harbor_router=debug"
    else if text_eq log_level (codes "warn")
    then codes "harbor_router=warn"
    else if text_eq log_level (codes "error")
    then codes "harbor_router=error"
    else codes "harbor_router=info"

-- `:8080` stands for `0.0.0.0:8080`.
unfoldable pub normalized : Text → Text
normalized addr = if starts_with (codes ":") addr then codes "0.0.0.0" ++ addr else addr

unfoldable pub parse_addr : (libs : Libraries) → Text → Outcome libs.net.Address
unfolding normalized
parse_addr libs addr = libs.net.socket_addr (normalized addr)

unfoldable pub service_auth : Libraries → Config → Text
service_auth libs cfg =
    codes "Basic "
    ++ libs.encode (expose_secret cfg.harbor_username ++ b':' ∷ expose_secret cfg.harbor_password)

-- The resolver makes its own header of the user and the password that it is given.
unfoldable pub upstream_auth : Libraries → (harbor_username harbor_password : Text) → Text
upstream_auth libs harbor_username harbor_password =
    codes "Basic " ++ libs.encode (harbor_username ++ (codes ":" ++ harbor_password))

unfoldable pub settings_of : Libraries → Config → Settings
unfolding upstream_auth
settings_of libs cfg = record {
  harbor_url = cfg.harbor_url;
  service_auth =
      upstream_auth libs (expose_secret cfg.harbor_username) (expose_secret cfg.harbor_password);
  max_fanout = cfg.max_fanout_projects;
  negative_cache_ttl = cfg.negative_cache_ttl;
  cache_ttl = cfg.cache_ttl;
  stale_while_revalidate = cfg.stale_while_revalidate;
  retry_max_attempts = cfg.retry_max_attempts;
  retry_base_delay = cfg.retry_base_delay;
  cache_warmup_top_n = cfg.cache_warmup_top_n;
}

unfoldable pub limiter_of : (l : Limiter) → Config → Option l.State
limiter_of l cfg =
    if ltb 0 cfg.rate_limit_per_ip then some (l.per_second cfg.rate_limit_per_ip) else none

pub data Backend (s : Sentinel) : Type 0 where
  moka : (cache_ttl : ℕ) → Backend s
  redis : Connected s → Backend s

abbrev pub password_of : Option SecretString → Option Text
password_of none = none
password_of (some s) = some (expose_secret s)

unfoldable pub backend_of : (s : Sentinel) → Config → Outcome (Backend s)
backend_of s cfg = if is_empty cfg.redis_sentinels then ok (moka cfg.cache_ttl) else do
  connected ←
      from_sentinel s cfg.redis_sentinels cfg.redis_master_name (password_of cfg.redis_password)
        cfg.redis_db cfg.cache_ttl cfg.redis_key_prefix cfg.redis_tls
  ok (redis connected)

-- `Resolver` and `AppState`, with the client of each.
pub record Resolver (libs : Libraries) : Type 0 where
  pub client : libs.http.Client
  pub timeout : ℕ
  pub settings : Settings

pub record AppState (libs : Libraries) : Type 0 where
  pub resolver : Resolver libs
  pub harbor_url : Text
  pub proxy_project : Text
  pub service_auth : Text
  pub blob_client : libs.http.Client

unfoldable pub new_resolver : (libs : Libraries) → Config → Outcome (Resolver libs)
unfolding settings_of resolver_settings
new_resolver libs cfg = do
  client ← libs.http.build (
      resolver_settings cfg.max_idle_conns_per_host cfg.idle_conn_timeout cfg.resolver_timeout
        cfg.http2_prior_knowledge)
  ok (record { client = client; timeout = cfg.resolver_timeout; settings = settings_of libs cfg })

unfoldable pub new_app_state :
    (libs : Libraries) (cfg : Config) → Resolver libs → Outcome (AppState libs)
unfolding service_auth blob_settings
new_app_state libs cfg resolver = do
  blob_client ← libs.http.build (blob_settings cfg.blob_read_timeout cfg.http2_prior_knowledge)
  ok (record {
    resolver = resolver;
    harbor_url = cfg.harbor_url;
    proxy_project = cfg.proxy_project;
    service_auth = service_auth libs cfg;
    blob_client = blob_client;
  })

-- What `async_main` has before it serves. The discovery uses the cache only if `shares_cache`.
pub record Booted (libs : Libraries) (l : Limiter) : Type 0 where
  pub config : Config
  pub backend : Backend libs.sentinel
  pub shares_cache : Bool
  pub breaker : CircuitBreaker
  pub discovery_client : libs.http.Client
  pub app : AppState libs
  pub limiter : Option l.State
  pub main_listener : libs.net.Listener
  pub metrics_listener : libs.net.Listener

unfoldable pub async_main : (libs : Libraries) (l : Limiter) → Process → Outcome (Booted libs l)
unfolding backend_of new_resolver new_app_state limiter_of parse_addr create_optimized_listener
async_main libs l p = do
  cfg ← load p
  backend ← backend_of libs.sentinel cfg
  discovery_client ← libs.http.build discovery_settings
  let breaker = new cfg.circuit_breaker_threshold (cfg.circuit_breaker_timeout / 1000)
  resolver ← new_resolver libs cfg
  app ← new_app_state libs cfg resolver
  main_addr ← parse_addr libs cfg.listen_addr
  metrics_addr ← parse_addr libs cfg.metrics_addr
  main_listener ← create_optimized_listener libs.net main_addr cfg.listen_backlog
  metrics_listener ← libs.net.bind_default metrics_addr
  ok (record {
    config = cfg;
    backend = backend;
    shares_cache = not (is_empty cfg.redis_sentinels);
    breaker = breaker;
    discovery_client = discovery_client;
    app = app;
    limiter = limiter_of l cfg;
    main_listener = main_listener;
    metrics_listener = metrics_listener;
  })

-- The server as it starts, over a cache that may hold something: no project is known.
abbrev pub started :
    {libs : Libraries} {l : Limiter} (c : CacheBackend) → c.State → Booted libs l → Server c l
started c cache b = record {
  gateway = record {
    world = record {
      cache = cache;
      breaker = b.breaker;
      projects = [];
      tick = 0;
      slept = [];
      spawned = [];
    };
    manifest_requests = [];
    blob_requests = [];
  };
  limiter = b.limiter;
  rejected = 0;
  log = [];
}
