-- ===== src/Server/Examples.antt =====
-- The server at concrete requests, with a limiter that lets some requests of all clients pass.
use harbor_router.Common.{
  ℕ, ◌+◌, ◌-◌, ◌≡◌, refl, true, false, Option, none, some, List, [], ◌∷◌, arith, ◌==◌,
  if◌then◌else◌, length, strip_prefix, contains, starts_with, text_eq, lookup, Text, codes,
}
use harbor_router.Proxy.Paths.{ParsedPath, manifests}
use harbor_router.Resolver.Status.{status_class}
use harbor_router.Resolver.Examples.{backend, settings, registry, world}
use harbor_router.Handlers.Headers.{Reaction}
use harbor_router.Handlers.Blobs.{Gateway}
use harbor_router.Handlers.Logs.{
  LogEntry, byte_len, sanitize_log_field, replace_controls, slice_to, debug, warn, log_level,
  req_type, logging_middleware,
}
use harbor_router.Handlers.Registry.{Incoming}
use harbor_router.Handlers.Registry.Routing.{request_path}
use harbor_router.Server.{
  text_response, ready_handler, Limiter, Axum, HttpRequest, Server, routes, handle, route_request,
  too_many_requests, rate_limit_middleware, respond,
}
use harbor_router.Server.Served.{IsPassing, IsPlain, respond-IsPlain}
use harbor_router.Server.Limits.{IsAccounted, respond_all, respond_all-IsAccounted}
use harbor_router.Server.Admission.{get_request}
use harbor_router.Server.Boot.{log_filter, normalized}

abbrev countdown : Limiter
countdown = record {
  State = ℕ;
  per_second = λ quota. quota;
  check_key = λ now ip left. if left == 0 then (false, 0) else (true, left - 1);
}

-- It knows the routes of the project "proxy".
abbrev axum : Axum
axum = record {
  recognise = λ patterns path. elim (strip_prefix (codes "/v2/proxy/") path) [
    | none ↦ some path
    | some [] ↦ some path
    | some (_ ∷ _) ↦ some (codes "/v2/proxy/{*path}")
  ];
  on_method = λ method. if text_eq method (codes "GET") then some (λ r. r) else none;
  not_found = text_response 404 [];
  not_allowed = text_response 405 [];
}

abbrev proxy : Text
proxy = codes "proxy"

axum-IsPassing : IsPassing axum
axum-IsPassing method pass r h = ground (arith, h)

abbrev gateway : Gateway backend
gateway = record { world = world; manifest_requests = []; blob_requests = [] }

abbrev server : Option ℕ → Server backend countdown
server limiter = record { gateway = gateway; limiter = limiter; rejected = 0; log = [] }

abbrev nginx : ParsedPath
nginx = record { image = codes "nginx"; kind = manifests; reference = codes "1" }

abbrev incoming : Incoming
incoming = record {
  path = request_path proxy nginx;
  authorization = some (codes "Basic a");
  accept = [];
}

abbrev probe : HttpRequest
probe =
    get_request (some (codes "10.0.0.1"))
      (record { path = codes "/readyz"; authorization = none; accept = [] })

abbrev ready_entry : LogEntry
ready_entry = record {
  level = debug;
  method = codes "GET";
  path = codes "/readyz";
  status = 200;
  class = codes "2xx";
  kind = codes "health";
}

abbrev refused_entry : LogEntry
refused_entry = record ready_entry { level = warn; status = 429; class = codes "4xx" }

abbrev two_probes : List HttpRequest
two_probes = probe ∷ probe ∷ []

abbrev two_answers : List Reaction
two_answers = ready_handler world.projects ∷ too_many_requests ∷ []

abbrev after_two : Server backend countdown
after_two = record {
  gateway = gateway;
  limiter = some 0;
  rejected = 1;
  log = refused_entry ∷ ready_entry ∷ [];
}

-- One request passes and the next does not; a probe counts as a request.
limited :
    respond_all settings (registry 200) axum proxy two_probes (server (some 1))
    ≡ some (two_answers, after_two)
unfolding respond_all respond rate_limit_middleware route_request handle ready_handler routes lookup
    text_eq strip_prefix logging_middleware sanitize_log_field slice_to replace_controls byte_len
    req_type contains starts_with log_level status_class
limited = refl

respond_all-IsAccounted_example :
    IsAccounted 1 (refused_entry ∷ ready_entry ∷ [])
    × (length after_two.log ≡ length two_probes + length (server (some 1)).log)
    × (length two_answers ≡ length two_probes)
respond_all-IsAccounted_example =
    respond_all-IsAccounted settings (registry 200) axum proxy two_probes (server (some 1))
      after_two two_answers limited (record { counted = omega arith; readable = tt })

names : Unit {0}
unfolding log_filter normalized starts_with text_eq
names =
    let filter : log_filter (codes "trace") ≡ codes "harbor_router=info" = refl in
    let address : normalized (codes ":8080") ≡ codes "0.0.0.0:8080" = refl in tt

respond-IsPlain_example :
    (r : Reaction) × (s' : Server backend countdown) × (respond settings
        (registry 200)
        axum
        proxy
        probe
        (server (some 1))
      ≡ some (r, s'))
    × IsPlain axum r
respond-IsPlain_example =
    respond-IsPlain settings (registry 200) axum proxy probe (server (some 1)) axum-IsPassing refl
