-- ===== src/Server/Served.antt =====
-- What every answer of the server has, and that the server always answers.
use harbor_router.Common.{
  ℕ, ◌≡◌, ◌⊎◌, inl, inr, refl, true, some, List, [], ◌∷◌, arith, Bool-cases, Option-cases, ltb, all,
  Text, codes, text_eq, text_eq_iff, lookup,
}
use harbor_router.Cache.{CacheBackend}
use harbor_router.Resolver.World.{Environment, Settings, now_ms}
use harbor_router.Handlers.Headers.{Reaction, is_allowed}
use harbor_router.Handlers.Blobs.{Gateway}
use harbor_router.Handlers.Registry.{Incoming, v2_check}
use harbor_router.Handlers.Registry.Clean.{IsClean, registry_handler-IsClean}
use harbor_router.Handlers.Logs.{entry_of, logging_middleware}
use harbor_router.Handlers.Logs.Sanitized.{sanitize_log_field-clean}
use harbor_router.Server.{
  Limiter, Axum, HttpRequest, Server, Route, version, registry, healthz, readyz, text_response,
  health_handler, ready_handler, routes, patterns, handle, route_request, too_many_requests,
  rate_limit_middleware, respond,
}

-- One header of the allow-list.
single-IsClean :
    (header value : Text) (status : ℕ) (body : Text)
    → is_allowed header ≡ true
    → IsClean (record { status = status; headers = (header, value) ∷ []; body = body })
unfolding lookup
single-IsClean header value status body fine name v h = elim (Bool-cases (text_eq header name)) [
  | inl same ↦ let e : header ≡ name = (text_eq_iff header name).0 same in rw (← e) fine
  | inr other ↦ absurd (ground arith)
]

text_response-IsClean : (status : ℕ) (body : Text) → IsClean (text_response status body)
unfolding is_allowed text_eq
text_response-IsClean status body = single-IsClean (codes "content-type") _ status body refl

v2_check-IsClean : IsClean v2_check
unfolding is_allowed text_eq
v2_check-IsClean = single-IsClean (codes "docker-distribution-api-version") _ 200 [] refl

health_handler-IsClean : (projects : List Text) → IsClean (health_handler projects)
unfolding health_handler
health_handler-IsClean [] = text_response-IsClean 503 (health_handler []).body
health_handler-IsClean (p ∷ ps) = text_response-IsClean 200 (health_handler (p ∷ ps)).body

ready_handler-IsClean : (projects : List Text) → IsClean (ready_handler projects)
unfolding ready_handler
ready_handler-IsClean [] = text_response-IsClean 503 (ready_handler []).body
ready_handler-IsClean (p ∷ ps) = text_response-IsClean 200 (ready_handler (p ∷ ps)).body

-- For every method, what a route answers is passed on with its headers.
abbrev pub IsPassing : Axum → Type 0
IsPassing axum =
    (method : Text) (pass : Reaction → Reaction) (r : Reaction)
    → axum.on_method method ≡ some pass
    → (pass r).headers ≡ r.headers

-- An answer of the router library itself, or one with headers of the allow-list only.
abbrev pub IsPlain : Axum → Reaction → Type 0
IsPlain axum r = (r ≡ axum.not_found) ⊎ ((r ≡ axum.not_allowed) ⊎ IsClean r)

passed-IsClean : (r r' : Reaction) → r'.headers ≡ r.headers → IsClean r → IsClean r'
passed-IsClean r r' same clean name value h = clean name value (rw same at h)

module _ {c : CacheBackend} (settings : Settings) (env : Environment) where
  handle-IsClean :
      (proxy_project : Text) (route : Route) (req : Incoming) (g : Gateway c)
      → IsClean (handle settings env proxy_project route req g).0
  unfolding handle
  handle-IsClean proxy_project version req g = v2_check-IsClean
  handle-IsClean proxy_project registry req g =
      registry_handler-IsClean settings env proxy_project req g
  handle-IsClean proxy_project healthz req g = health_handler-IsClean g.world.projects
  handle-IsClean proxy_project readyz req g = ready_handler-IsClean g.world.projects

  route_request-IsPlain :
      (axum : Axum) (proxy_project : Text) (req : HttpRequest) (g : Gateway c)
      → IsPassing axum
      → IsPlain axum (route_request settings env axum proxy_project req g).0
  unfolding route_request
  route_request-IsPlain axum proxy_project req g passing =
      let table = routes proxy_project in
      elim (Option-cases (axum.recognise (patterns table) req.incoming.path)) [
        | inl unknown ↦ rw (route_request, unknown) (inl refl)
        | inr (pattern, found) ↦ elim (Option-cases (lookup pattern table)) [
          | inl odd ↦ rw (route_request, found, odd) (inl refl)
          | inr (route, listed) ↦ elim (Option-cases (axum.on_method req.method)) [
            | inl refused ↦ rw (route_request, found, listed, refused) (inr (inl refl))
            | inr (pass, taken) ↦
                let answer : Reaction =
                  (handle settings env proxy_project route req.incoming g).0 in
                let clean = handle-IsClean proxy_project route req.incoming g in
                rw (route_request, found, listed, taken)
                  (inr (
                    inr (
                      passed-IsClean answer (pass answer) (passing req.method pass answer taken)
                        clean)))
          ]
        ]
      ]

module _ {c : CacheBackend} {l : Limiter} (settings : Settings) (env : Environment) where
  rate_limit_middleware-IsPlain :
      (axum : Axum) (proxy_project : Text) (req : HttpRequest) (s : Server c l)
      → IsPassing axum
      → IsPlain axum (rate_limit_middleware settings env axum proxy_project req s).0
  unfolding rate_limit_middleware
  rate_limit_middleware-IsPlain axum proxy_project req s passing =
      let plain = route_request-IsPlain settings env axum proxy_project req s.gateway passing in
      elim (Option-cases s.limiter) [
        | inl off ↦ rw (rate_limit_middleware, off) plain
        | inr (limits, on) ↦ elim (Option-cases req.peer) [
          | inl unknown ↦ rw (rate_limit_middleware, on, unknown) plain
          | inr (ip, known) ↦
              elim (Bool-cases (l.check_key (now_ms env s.gateway.world) ip limits).0) [
                | inl allowed ↦ rw (rate_limit_middleware, on, known, allowed) plain
                | inr over ↦
                    rw (rate_limit_middleware, on, known, over)
                      (inr (inr (text_response-IsClean 429 too_many_requests.body)))
              ]
        ]
      ]

  -- Every request with an ASCII path is answered, and the answer is the router library's own or
  -- has only headers of the allow-list, whatever the upstream answers; what a route answers is
  -- passed on with its headers.
  pub respond-IsPlain :
      (axum : Axum) (proxy_project : Text) (req : HttpRequest) (s : Server c l)
      → IsPassing axum
      → all (λ ch. ltb ch 128) req.incoming.path ≡ true
      → (r : Reaction) × (s' : Server c l) × (respond settings env axum proxy_project req s
          ≡ some (r, s'))
        × IsPlain axum r
  unfolding respond logging_middleware
  respond-IsPlain axum proxy_project req s passing ascii =
      let (t, clean) = (sanitize_log_field-clean req.incoming.path).1 ascii in
      let plain = rate_limit_middleware-IsPlain axum proxy_project req s passing in
      let (answer, after) = rate_limit_middleware settings env axum proxy_project req s in
      (
        answer,
        record after { log = (entry_of req.method t answer) ∷ after.log },
        rw (respond, logging_middleware, clean) refl,
        plain,
      )
