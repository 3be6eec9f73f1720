-- ===== src/Server/Requests.antt =====
-- Requests from the route to the handler, through the layers.
use harbor_router.Common.{
  ◌++◌, ◌≡◌, ◌≢◌, ◌↔◌, ◌⊎◌, inl, inr, refl, false, some, List, [], ◌∷◌, arith, is_empty, Text,
  codes, lookup, text_eq,
}
use harbor_router.Cache.{CacheBackend}
use harbor_router.Resolver.World.{Environment, Settings}
use harbor_router.Handlers.Headers.{Reaction}
use harbor_router.Server.{
  Limiter, Axum, HttpRequest, Server, readyz, ready_handler, routes, patterns, handle, respond,
}
use harbor_router.Server.Admission.{IsAdmitted, IsServed, respond_found}

-- What `axum` documents: `get` passes on the answer to a GET, and a path is recognised by the route
-- pattern that is equal to it, or else, if it continues a pattern's prefix, by its wildcard.
pub record IsRouter (axum : Axum) (proxy_project : Text) : Type 0 where
  pub on_get : axum.on_method (codes "GET") ≡ some (λ r. r)
  pub on_wildcard :
      (rest : Text)
      → is_empty rest ≡ false
      → axum.recognise
          (patterns (routes proxy_project))
          (codes "/v2/" ++ (proxy_project ++ (codes "/" ++ rest)))
        ≡ some (codes "/v2/" ++ (proxy_project ++ codes "/{*path}"))
  pub on_ready :
      axum.recognise (patterns (routes proxy_project)) (codes "/readyz") ≡ some (codes "/readyz")

ready_status :
    (projects : List Text)
    → (((ready_handler projects).status ≡ 200) ↔ (projects ≢ []))
      × (((ready_handler projects).status ≡ 200) ⊎ ((ready_handler projects).status ≡ 503))
unfolding ready_handler
ready_status [] = ((λ h. absurd (omega (arith, h)), λ h. absurd (h refl)), inr refl)
ready_status (p ∷ ps) = ((λ h e. cc, λ h. refl), inl refl)

lookup-readyz :
    (proxy_project : Text) → lookup (codes "/readyz") (routes proxy_project) ≡ some readyz
unfolding lookup routes text_eq
lookup-readyz proxy_project = refl

module _ {c : CacheBackend} {l : Limiter} (settings : Settings) (env : Environment) where
  pub respond-readyz :
      (axum : Axum) (proxy_project : Text) (req : HttpRequest) (s : Server c l)
      → IsRouter axum proxy_project
      → IsAdmitted env req s
      → req.method ≡ codes "GET"
      → req.incoming.path ≡ codes "/readyz"
      → (r : Reaction) × IsServed (respond settings env axum proxy_project req s) s r s.gateway
        × ((r.status ≡ 200) ↔ (s.gateway.world.projects ≢ []))
        × ((r.status ≡ 200) ⊎ (r.status ≡ 503))
  unfolding handle
  respond-readyz axum proxy_project req s router admitted get at_ready =
      let served =
        respond_found settings env axum proxy_project (codes "/readyz") readyz req s admitted
          (rw get router.on_get) (rw at_ready router.on_ready) (lookup-readyz proxy_project)
          (rw at_ready refl) in
      let (status, one_of) = ready_status s.gateway.world.projects in
      (ready_handler s.gateway.world.projects, served, status, one_of)
