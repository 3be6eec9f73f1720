-- ===== src/Server/Admission.antt =====
-- What the layers of the server make of a request that the limiter admits.
use harbor_router.Common.{
  ◌≡◌, refl, true, Option, none, some, ◌∷◌, arith, all, ltb, Text, codes, lookup,
}
use harbor_router.Cache.{CacheBackend}
use harbor_router.Resolver.World.{Environment, Settings, now_ms}
use harbor_router.Handlers.Headers.{Reaction}
use harbor_router.Handlers.Blobs.{Gateway}
use harbor_router.Handlers.Registry.{Incoming}
use harbor_router.Handlers.Logs.{LogEntry, entry_of, logging_middleware}
use harbor_router.Handlers.Logs.Sanitized.{sanitize_log_field-clean}
use harbor_router.Server.{
  Limiter, Axum, HttpRequest, Server, Route, routes, patterns, handle, route_request, next,
  rate_limit_middleware, respond,
}

abbrev pub get_request : Option Text → Incoming → HttpRequest
get_request peer incoming = record { method = codes "GET"; peer = peer; incoming = incoming }

-- The limiter is off, the client's address is not known, or the limiter lets the request pass.
pub data IsAdmitted {c : CacheBackend} {l : Limiter} (env : Environment) (req : HttpRequest)
    (s : Server c l) : Type 0 where
  off : s.limiter ≡ none → IsAdmitted env req s
  unknown : (limits : l.State) → s.limiter ≡ some limits → req.peer ≡ none → IsAdmitted env req s
  allowed :
      (limits : l.State) (ip : Text)
      → s.limiter ≡ some limits
      → req.peer ≡ some ip
      → (l.check_key (now_ms env s.gateway.world) ip limits).0 ≡ true
      → IsAdmitted env req s

-- The request was answered so, with this state of the gateway; it was logged once and not counted as rejected.
abbrev pub IsServed :
    {c : CacheBackend} {l : Limiter}
    → Option (Reaction × Server c l)
    → Server c l
    → Reaction
    → Gateway c
    → Type 0
IsServed {c} {l} served s answer g =
    (limits : Option l.State) × (entry : LogEntry) × (served
      ≡ some (answer, record s { gateway = g; limiter = limits; log = entry ∷ s.log }))

module _ {c : CacheBackend} (settings : Settings) (env : Environment) where
  pub route_request-found :
      (axum : Axum) (proxy_project pattern : Text) (route : Route) (req : HttpRequest)
      (g : Gateway c)
      → axum.on_method req.method ≡ some (λ r. r)
      → axum.recognise (patterns (routes proxy_project)) req.incoming.path ≡ some pattern
      → lookup pattern (routes proxy_project) ≡ some route
      → route_request settings env axum proxy_project req g
        ≡ handle settings env proxy_project route req.incoming g
  unfolding route_request
  route_request-found axum proxy_project pattern route req g get found listed =
      rw (route_request, found, listed, get) refl

module _ {c : CacheBackend} {l : Limiter} (settings : Settings) (env : Environment) where
  pub rate_limit_middleware-admitted :
      (axum : Axum) (proxy_project : Text) (req : HttpRequest) (s : Server c l)
      → IsAdmitted env req s
      → let (answer, g) = route_request settings env axum proxy_project req s.gateway in
        (limits : Option l.State) × (rate_limit_middleware settings env axum proxy_project req s
          ≡ (answer, record s { gateway = g; limiter = limits }))
  unfolding rate_limit_middleware
  rate_limit_middleware-admitted axum proxy_project req s (off limit) =
      let e : rate_limit_middleware settings env axum proxy_project req s
          ≡ next settings env axum proxy_project req s =
        ground (arith, limit) in
      (s.limiter, e)
  rate_limit_middleware-admitted axum proxy_project req s (unknown limits on nobody) =
      (some limits, ground (arith, on, nobody))
  rate_limit_middleware-admitted axum proxy_project req s (allowed limits ip on known fine) =
      (some (l.check_key (now_ms env s.gateway.world) ip limits).1, ground (arith, on, known, fine))

  pub respond_of :
      (axum : Axum) (proxy_project : Text) (req : HttpRequest) (s s' : Server c l)
      (answer : Reaction)
      → rate_limit_middleware settings env axum proxy_project req s ≡ (answer, s')
      → all (λ ch. ltb ch 128) req.incoming.path ≡ true
      → (entry : LogEntry) × (respond settings env axum proxy_project req s
          ≡ some (answer, record s' { log = entry ∷ s'.log }))
  unfolding respond logging_middleware
  respond_of axum proxy_project req s s' answer e ascii =
      let (t, clean) = (sanitize_log_field-clean req.incoming.path).1 ascii in
      (entry_of req.method t answer, rw (respond, logging_middleware, clean, e) refl)

  -- What the server makes of an admitted request whose path a route of the table is found for.
  pub respond_found :
      (axum : Axum) (proxy_project pattern : Text) (route : Route) (req : HttpRequest)
      (s : Server c l)
      → IsAdmitted env req s
      → axum.on_method req.method ≡ some (λ r. r)
      → axum.recognise (patterns (routes proxy_project)) req.incoming.path ≡ some pattern
      → lookup pattern (routes proxy_project) ≡ some route
      → all (λ ch. ltb ch 128) req.incoming.path ≡ true
      → let (answer, g) = handle settings env proxy_project route req.incoming s.gateway in
        IsServed (respond settings env axum proxy_project req s) s answer g
  respond_found axum proxy_project pattern route req s admitted get found listed ascii =
      let (limits, e) = rate_limit_middleware-admitted axum proxy_project req s admitted in
      let at_route =
        route_request-found settings env axum proxy_project pattern route req s.gateway get found
          listed in
      let (entry, e') = respond_of axum proxy_project req s _ _ (rw at_route at e) ascii in
      (limits, entry, e')
