-- ===== src/Server/Boot/Examples.antt =====
-- The start of the program in one environment: Redis behind sentinels, and a limiter.
use harbor_router.Common.{
  ℕ, ◌-◌, ◌≡◌, refl, true, false, some, List, [], ◌∷◌, ◌==◌, if◌then◌else◌, starts_with, trim,
  split, parse_u64, text_eq, lookup, Text, codes, ok, err,
}
use harbor_router.Breaker.{new}
use harbor_router.Cache.Sentinel.{Sentinel, from_sentinel}
use harbor_router.Config.Env.{
  Process, env_str_or_file, env_str, env_duration, env_usize, parse_u32, env_u32, env_bool,
}
use harbor_router.Config.Load.{Config, load, with_values}
use harbor_router.Server.{Limiter}
use harbor_router.Server.Boot.{
  Libraries, Booted, redis, parse_addr, settings_of, limiter_of, backend_of, normalized, async_main,
  service_auth, upstream_auth, new_resolver, new_app_state,
}
use harbor_router.Server.Clients.{Setting, discovery_settings, resolver_settings, blob_settings}
use harbor_router.Server.Sockets.{Sockets, create_optimized_listener}
use harbor_router.Server.Boot.Configured.{IsConfigured, async_main-IsConfigured}

abbrev countdown : Limiter
countdown = record {
  State = ℕ;
  per_second = λ quota. quota;
  check_key = λ now ip left. if left == 0 then (false, 0) else (true, left - 1);
}

abbrev sentinel : Sentinel
sentinel = record {
  Client = List Text;
  Connection = Text;
  build = λ urls master_name info. ok urls;
  connect = λ client. ok (codes "connected");
}

-- A socket is the backlog that it listens with.
abbrev net : Sockets
net = record {
  Address = Text;
  Socket = ℕ;
  Listener = ℕ;
  socket_addr = λ addr. ok addr;
  is_ipv4 = λ addr. true;
  new_tcp = λ domain. ok 0;
  set = λ option socket. ok socket;
  bind = λ addr socket. ok socket;
  listen = λ backlog socket. ok backlog;
  from_std = λ socket. ok socket;
  bind_default = λ addr. ok 1024;
}

abbrev libs : Libraries
libs = record {
  encode = λ s. s;
  http = record { Client = List Setting; build = λ settings. ok settings };
  net = net;
  sentinel = sentinel;
}

abbrev process : Process
process = record {
  var = λ key. lookup key (
      (codes "HARBOR_USERNAME", codes "robot")
      ∷ (codes "HARBOR_PASSWORD", codes "s3cret")
      ∷ (codes "REDIS_SENTINELS", codes "s1:26379, ,s2:26379")
      ∷ (codes "RATE_LIMIT_PER_IP", codes "20")
      ∷ []);
  read_to_string = λ path. err (codes "no such file");
}

abbrev config : Config
config = with_values process (codes "http://harbor-core:80") (codes "robot") (codes "s3cret") [] 0

abbrev booted : Booted libs countdown
booted = record {
  config = config;
  backend = redis (record { connection = codes "connected"; ttl_secs = 300; prefix = codes "hr" });
  shares_cache = true;
  breaker = new 5 30;
  discovery_client = discovery_settings;
  app = record {
    resolver = record {
      client = resolver_settings 512 90000 10000 false;
      timeout = 10000;
      settings = settings_of libs config;
    };
    harbor_url = codes "http://harbor-core:80";
    proxy_project = codes "proxy";
    service_auth = codes "Basic robot:s3cret";
    blob_client = blob_settings 60000 false;
  };
  limiter = some 20;
  main_listener = 8192;
  metrics_listener = 1024;
}

boots : async_main libs countdown process ≡ ok booted
unfolding async_main settings_of service_auth upstream_auth new_resolver new_app_state
    resolver_settings blob_settings create_optimized_listener normalized limiter_of parse_addr
    backend_of from_sentinel new load with_values env_str_or_file env_str env_duration env_usize
    parse_u32 env_u32 env_bool lookup starts_with text_eq trim split parse_u64
boots = refl

async_main-IsConfigured_example : IsConfigured booted
async_main-IsConfigured_example = async_main-IsConfigured libs countdown process booted boots
