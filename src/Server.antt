-- ===== src/Server.antt =====
-- The main router of src/main.rs: its routes, the probes, and the layers around them.
pub mod Limits
pub mod Served
pub mod Admission
pub mod Requests
pub mod Clients
pub mod Sockets
pub mod Boot
mod Examples
use harbor_router.Common.{
  ℕ, ◌+◌, ◌++◌, Bool, true, false, Option, none, some, List, [], ◌∷◌, is_empty, length,
  if◌then◌else◌, print_u64, Text, codes, Dict, lookup, Outcome, ok, err,
}
use harbor_router.Cache.{CacheBackend}
use harbor_router.Resolver.World.{Environment, Settings, World, now_ms}
use harbor_router.Handlers.Headers.{Reaction}
use harbor_router.Handlers.Blobs.{Gateway}
use harbor_router.Handlers.Registry.{Incoming, v2_check, registry_handler}
use harbor_router.Handlers.Logs.{LogEntry, logging_middleware}

-- A `StatusCode` with a text.
abbrev pub text_response : ℕ → Text → Reaction
text_response status body = record {
  status = status;
  headers = (codes "content-type", codes "text/plain; charset=utf-8") ∷ [];
  body = body;
}

unfoldable pub health_handler : (projects : List Text) → Reaction
health_handler projects =
    if is_empty projects
    then text_response 503
        (codes "{\"status\":\"unhealthy\",\"reason\":\"no proxy-cache projects discovered\"}")
    else text_response 200 (
        codes "{\"status\":\"healthy\",\"projects\":" ++ (print_u64 (length projects) ++ codes "}"))

unfoldable pub ready_handler : (projects : List Text) → Reaction
ready_handler projects =
    if is_empty projects
    then text_response 503 (codes "{\"ready\":false}")
    else text_response 200
        (codes "{\"ready\":true,\"projects\":" ++ (print_u64 (length projects) ++ codes "}"))

-- The only route of the metrics router, for what `metrics::render` gives.
unfoldable pub metrics_handler : Outcome Text → Reaction
metrics_handler (ok body) = text_response 200 body
metrics_handler (err e) = text_response 500 e

-- The library `governor`: a limiter with a state for each key, made for a quota of so many a second.
pub record Limiter : Type 1 where
  pub State : Type 0
  pub per_second : ℕ → State
  pub check_key : ℕ → Text → State → Bool × State

-- The library `axum`: which of some route patterns a path matches, what it answers on its own, and
-- what `get` does with a method: nothing, or it passes on what the handler answers, changed so.
pub record Axum : Type 0 where
  pub recognise : List Text → Text → Option Text
  pub on_method : Text → Option (Reaction → Reaction)
  pub not_found : Reaction
  pub not_allowed : Reaction

-- A request, and the address of the client, if it is known.
pub record HttpRequest : Type 0 where
  pub method : Text
  pub peer : Option Text
  pub incoming : Incoming

pub data Route : Type 0 where
  version registry healthz readyz : Route

unfoldable pub routes : (proxy_project : Text) → Dict Route
routes proxy_project =
    (codes "/v2/", version)
    ∷ (codes "/v2/" ++ (proxy_project ++ codes "/"), registry)
    ∷ (codes "/v2/" ++ (proxy_project ++ codes "/{*path}"), registry)
    ∷ (codes "/healthz", healthz)
    ∷ (codes "/readyz", readyz)
    ∷ []

abbrev pub patterns : Dict Route → List Text
patterns [] = []
patterns ((pattern, route) ∷ rest) = pattern ∷ patterns rest

-- What the handlers share, with the limiter (none if it is off), the counter
-- rate_limit_rejected_total, and the log, the newest entry first.
pub record Server (c : CacheBackend) (l : Limiter) : Type 0 where
  pub gateway : Gateway c
  pub limiter : Option l.State
  pub rejected : ℕ
  pub log : List LogEntry

module _ {c : CacheBackend} (settings : Settings) (env : Environment) where
  unfoldable pub handle :
      (proxy_project : Text) → Route → Incoming → Gateway c → Reaction × Gateway c
  handle proxy_project version req g = (v2_check, g)
  handle proxy_project registry req g = registry_handler settings env proxy_project req g
  handle proxy_project healthz req g = (health_handler g.world.projects, g)
  handle proxy_project readyz req g = (ready_handler g.world.projects, g)

  -- The router itself, without layers.
  unfoldable pub route_request :
      Axum → (proxy_project : Text) → HttpRequest → Gateway c → Reaction × Gateway c
  unfolding handle
  route_request axum proxy_project req g =
      let table = routes proxy_project in
      elim (axum.recognise (patterns table) req.incoming.path) [
        | none ↦ (axum.not_found, g)
        | some pattern ↦ elim (lookup pattern table) [
          | none ↦ (axum.not_found, g)
          | some route ↦ elim (axum.on_method req.method) [
            | none ↦ (axum.not_allowed, g)
            | some pass ↦
                let (answer, g') = handle proxy_project route req.incoming g in (pass answer, g')
          ]
        ]
      ]

abbrev pub too_many_requests : Reaction
too_many_requests =
    text_response 429
      (codes "{\"errors\":[{\"code\":\"TOOMANYREQUESTS\",\"message\":\"rate limit exceeded\"}]}")

module _ {c : CacheBackend} {l : Limiter} (settings : Settings) (env : Environment) where
  -- `next.run(req)` for the limiter.
  abbrev pub next : Axum → (proxy_project : Text) → HttpRequest → Server c l → Reaction × Server c l
  next axum proxy_project req s =
      let (answer, g) = route_request settings env axum proxy_project req s.gateway in
      (answer, record s { gateway = g })

  unfoldable pub rate_limit_middleware :
      Axum → (proxy_project : Text) → HttpRequest → Server c l → Reaction × Server c l
  rate_limit_middleware axum proxy_project req s = elim s.limiter [
    | none ↦ next axum proxy_project req s
    | some limits ↦ elim req.peer [
      | none ↦ next axum proxy_project req s
      | some ip ↦
          let (allowed, limits') = l.check_key (now_ms env s.gateway.world) ip limits in
          let checked = record s { limiter = some limits' } in
          if allowed
          then next axum proxy_project req checked
          else (too_many_requests, record checked { rejected = s.rejected + 1 })
    ]
  ]

  -- The layers in their order: the log around the limiter around the routes. (The limit on bodies
  -- touches no handler, since none reads a body.) `none` is a panic of the log.
  unfoldable pub respond :
      Axum → (proxy_project : Text) → HttpRequest → Server c l → Option (Reaction × Server c l)
  unfolding rate_limit_middleware
  respond axum proxy_project req s =
      let (answer, s') = rate_limit_middleware axum proxy_project req s in
      elim (logging_middleware req.method req.incoming.path answer) [
        | none ↦ none
        | some (entry, passed) ↦ some (passed, record s' { log = entry ∷ s'.log })
      ]
