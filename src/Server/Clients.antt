-- ===== src/Server/Clients.antt =====
-- The HTTP clients that src/discovery.rs, src/resolver.rs and src/proxy.rs build: what the builder of
-- the client library is told, in order. The library is a parameter, and building may fail.
use Prim.Native.Nat.{max}
use harbor_router.Common.{
  ℕ, ◌++◌, ◌≡◌, refl, Bool, true, false, inl, inr, Bool-cases, List, [], ◌∷◌, any, if◌then◌else◌,
  Outcome,
}

-- Durations are in milliseconds.
pub data Setting : Type 0 where
  pool_max_idle_per_host : (connections : ℕ) → Setting
  pool_idle_timeout : (duration : ℕ) → Setting
  tcp_keepalive : (duration : ℕ) → Setting
  tcp_nodelay : (enabled : Bool) → Setting
  connect_timeout : (duration : ℕ) → Setting
  timeout : (duration : ℕ) → Setting
  read_timeout : (duration : ℕ) → Setting
  redirect_none : Setting
  prior_knowledge : Setting

pub record HttpLibrary : Type 1 where
  pub Client : Type 0
  pub build : List Setting → Outcome Client

abbrev pub with_http2 : (http2_prior_knowledge : Bool) → List Setting
with_http2 http2_prior_knowledge = if http2_prior_knowledge then prior_knowledge ∷ [] else []

abbrev pub discovery_settings : List Setting
discovery_settings = timeout 15000 ∷ []

unfoldable pub resolver_settings :
    (max_idle_conns_per_host idle_conn_timeout duration : ℕ)
    → (http2_prior_knowledge : Bool) → List Setting
resolver_settings max_idle_conns_per_host idle_conn_timeout duration http2_prior_knowledge =
    (pool_max_idle_per_host (max max_idle_conns_per_host 512)
      ∷ pool_idle_timeout idle_conn_timeout
      ∷ tcp_keepalive 30000
      ∷ tcp_nodelay true
      ∷ connect_timeout 5000
      ∷ timeout duration
      ∷ redirect_none
      ∷ [])
    ++ with_http2 http2_prior_knowledge

unfoldable pub blob_settings :
    (blob_read_timeout : ℕ) → (http2_prior_knowledge : Bool) → List Setting
blob_settings blob_read_timeout http2_prior_knowledge =
    (pool_max_idle_per_host 256
      ∷ pool_idle_timeout 90000
      ∷ tcp_keepalive 30000
      ∷ tcp_nodelay true
      ∷ connect_timeout 5000
      ∷ read_timeout blob_read_timeout
      ∷ redirect_none
      ∷ [])
    ++ with_http2 http2_prior_knowledge

abbrev pub is_redirect_none : Setting → Bool
is_redirect_none redirect_none = true
is_redirect_none (pool_max_idle_per_host n) = false
is_redirect_none (pool_idle_timeout d) = false
is_redirect_none (tcp_keepalive d) = false
is_redirect_none (tcp_nodelay b) = false
is_redirect_none (connect_timeout d) = false
is_redirect_none (timeout d) = false
is_redirect_none (read_timeout d) = false
is_redirect_none prior_knowledge = false

abbrev pub is_timeout : Setting → Bool
is_timeout (timeout d) = true
is_timeout redirect_none = false
is_timeout (pool_max_idle_per_host n) = false
is_timeout (pool_idle_timeout d) = false
is_timeout (tcp_keepalive d) = false
is_timeout (tcp_nodelay b) = false
is_timeout (connect_timeout d) = false
is_timeout (read_timeout d) = false
is_timeout prior_knowledge = false

-- A client that hands redirections on instead of following them, with or without a limit on the
-- whole of a request.
pub record IsHandingOn (h : HttpLibrary) (limited : Bool) (client : h.Client) : Type 0 where
  pub settings : List Setting
  pub built : h.build settings ≡ Outcome.ok client
  pub redirects : any is_redirect_none settings ≡ true
  pub limit : any is_timeout settings ≡ limited

module _ {h : HttpLibrary} {client : h.Client} where
  pub resolver_settings-IsHandingOn :
      (idle idle_timeout duration : ℕ) (http2 : Bool)
      → h.build (resolver_settings idle idle_timeout duration http2) ≡ Outcome.ok client
      → IsHandingOn h true client
  unfolding resolver_settings
  resolver_settings-IsHandingOn idle idle_timeout duration http2 e = record {
    settings = _;
    built = e;
    redirects = refl;
    limit = refl;
  }

  pub blob_settings-IsHandingOn :
      (duration : ℕ) (http2 : Bool)
      → h.build (blob_settings duration http2) ≡ Outcome.ok client
      → IsHandingOn h false client
  unfolding blob_settings
  blob_settings-IsHandingOn duration http2 e = record {
    settings = _;
    built = e;
    redirects = refl;
    limit = elim (Bool-cases http2) [ inl off ↦ rw off refl | inr on ↦ rw on refl ];
  }
