-- ===== src/Server/Boot/Configured.antt =====
-- What the components are given, whenever the program gets as far as to serve.
use harbor_router.Common.{
  ◌≤◌, ◌<◌, ◌^◌, ◌≡◌, ◌↔◌, inl, inr, refl, arith, Bool, true, false, not, Bool-cases, none,
  is_empty, ok, >>=_inverse, ok_injective,
}
use harbor_router.Breaker.{new}
use harbor_router.Config.Env.{Process}
use harbor_router.Config.Load.{Config, load}
use harbor_router.Config.Load.Sound.{load-IsUsable}
use harbor_router.Cache.Sentinel.{Sentinel, from_sentinel}
use harbor_router.Server.{Limiter}
use harbor_router.Server.Boot.{
  Libraries, Backend, moka, redis, Booted, password_of, backend_of, parse_addr, settings_of,
  limiter_of, async_main, service_auth, upstream_auth, Resolver, AppState, new_resolver,
  new_app_state,
}
use harbor_router.Server.Clients.{
  IsHandingOn, resolver_settings-IsHandingOn, blob_settings-IsHandingOn,
}
use harbor_router.Server.Sockets.{
  IsListening, create_optimized_listener, create_optimized_listener-IsListening,
}

abbrev pub is_redis : {s : Sentinel} → Backend s → Bool
is_redis (moka ttl) = false
is_redis (redis connected) = true

-- The two clients that ask Harbor hand redirections on, only the one of the resolver has a limit on a
-- whole request, and both ask it with the same credentials.
pub record IsConnected {libs : Libraries} (app : AppState libs) : Type 0 where
  pub resolving : IsHandingOn libs.http true app.resolver.client
  pub streaming : IsHandingOn libs.http false app.blob_client
  pub same_url : app.harbor_url ≡ app.resolver.settings.harbor_url
  pub same_auth : app.service_auth ≡ app.resolver.settings.service_auth

pub record IsConfigured {libs : Libraries} {l : Limiter} (b : Booted libs l) : Type 0 where
  pub connected : IsConnected b.app
  pub has_url : is_empty b.app.harbor_url ≡ false
  pub threshold_pos : 1 ≤ b.breaker.threshold
  pub threshold_bound : b.breaker.threshold < 2 ^ 32
  pub retries_bound : b.app.resolver.settings.retry_max_attempts < 2 ^ 32
  pub delay_bound : b.app.resolver.settings.retry_base_delay < 2 ^ 64
  pub shared : b.shares_cache ≡ is_redis b.backend
  pub unlimited : (b.limiter ≡ none) ↔ (b.config.rate_limit_per_ip ≡ 0)
  pub listening : IsListening libs.net b.config.listen_backlog b.main_listener

new_app_state-IsConnected :
    (libs : Libraries) (cfg : Config) {r : Resolver libs} {app : AppState libs}
    → new_resolver libs cfg ≡ ok r
    → new_app_state libs cfg r ≡ ok app
    → IsConnected app
      × (app.harbor_url ≡ cfg.harbor_url)
      × (app.resolver.settings ≡ settings_of libs cfg)
unfolding new_resolver new_app_state settings_of service_auth upstream_auth
new_app_state-IsConnected libs cfg made e =
    let (client, built, made1) = >>=_inverse (libs.http.build _) _ made in
    let (blob_client, blob_built, e1) = >>=_inverse (libs.http.build _) _ e in
    rw (← ok_injective e1, ← ok_injective made1)
      (
        record {
          resolving = resolver_settings-IsHandingOn _ _ _ _ built;
          streaming = blob_settings-IsHandingOn _ _ blob_built;
          same_url = refl;
          same_auth = refl;
        },
        refl,
        refl,
      )

backend-shared :
    (s : Sentinel) (cfg : Config) (backend : Backend s)
    → backend_of s cfg ≡ ok backend
    → not (is_empty cfg.redis_sentinels) ≡ is_redis backend
unfolding backend_of
backend-shared s cfg backend e = elim (Bool-cases (is_empty cfg.redis_sentinels)) [
  | inl local ↦
      let same : moka cfg.cache_ttl ≡ backend = ok_injective (rw (local, backend_of) at e) in
      rw (local, ← same) refl
  | inr remote ↦
      let (connected, made, e1) =
        >>=_inverse
          (from_sentinel s cfg.redis_sentinels cfg.redis_master_name
            (password_of cfg.redis_password) cfg.redis_db cfg.cache_ttl cfg.redis_key_prefix
            cfg.redis_tls)
          (λ connected. ok (redis connected)) (rw (backend_of, remote) at e) in
      rw (remote, ← ok_injective e1) refl
]

limiter_of_iff :
    (l : Limiter) (cfg : Config) → (limiter_of l cfg ≡ none) ↔ (cfg.rate_limit_per_ip ≡ 0)
unfolding limiter_of
limiter_of_iff l cfg = (λ h. ground (arith, h), λ h. ground (arith, h))

-- Whenever the program gets as far as to serve, the two clients that resolve and stream ask the
-- same Harbor, whose URL is not empty, with the same credentials and follow no redirection, only
-- the resolver's has a limit on a whole request; the threshold of the breaker is at least 1 and
-- below 2^32, the number of retries and their delay are within u32 and u64; the discovery shares
-- the cache exactly when it is Redis; the limiter is off exactly when the configured rate is 0;
-- and the backlog of the listener is at most the configured one and fits an i32.
pub async_main-IsConfigured :
    (libs : Libraries) (l : Limiter) (p : Process) (b : Booted libs l)
    → async_main libs l p ≡ ok b
    → IsConfigured b
unfolding async_main settings_of new
async_main-IsConfigured libs l p b e =
    let (cfg, loaded, e1) = >>=_inverse (load p) _ e in
    let (backend, chosen, e2) = >>=_inverse (backend_of libs.sentinel cfg) _ e1 in
    let (discovery_client, _, e3) = >>=_inverse (libs.http.build _) _ e2 in
    let (resolver, made, e4) = >>=_inverse (new_resolver libs cfg) _ e3 in
    let (app, joined, e5) = >>=_inverse (new_app_state libs cfg resolver) _ e4 in
    let (main_addr, _, e6) = >>=_inverse (parse_addr libs cfg.listen_addr) _ e5 in
    let (metrics_addr, _, e7) = >>=_inverse (parse_addr libs cfg.metrics_addr) _ e6 in
    let (main_listener, bound, e8) =
      >>=_inverse (create_optimized_listener libs.net main_addr cfg.listen_backlog) _ e7 in
    let (metrics_listener, _, e9) = >>=_inverse (libs.net.bind_default metrics_addr) _ e8 in
    let usable = load-IsUsable p cfg loaded in
    let (connected, url, settings) = new_app_state-IsConnected libs cfg made joined in
    rw (← ok_injective e9) (record {
      connected = connected;
      has_url = rw url usable.has_url;
      threshold_pos = omega arith;
      threshold_bound = omega (arith, usable.bounded.circuit_breaker_threshold_bound);
      retries_bound = rw settings usable.bounded.retry_max_attempts_bound;
      delay_bound = rw settings usable.bounded.retry_base_delay_bound;
      shared = backend-shared libs.sentinel cfg backend chosen;
      unlimited = limiter_of_iff l cfg;
      listening = create_optimized_listener-IsListening libs.net main_addr cfg.listen_backlog bound;
    })
