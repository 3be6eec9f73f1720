-- ===== src/Handlers/Examples.antt =====
-- The theorems on the handlers at concrete requests.
use harbor_router.Common.{◌≡◌, ◌⊎◌, true, some, List, [], ◌∷◌, arith, Text, codes, ok}
use harbor_router.Validation.{is_safe_project_name}
use harbor_router.Proxy.Paths.{ParsedPath, manifests}
use harbor_router.Resolver.World.{Response}
use harbor_router.Resolver.Manifest.{resolve_manifest}
use harbor_router.Resolver.Examples.{backend, settings, registry, world, complete_all-IsExecutor}
use harbor_router.Handlers.Blobs.{Gateway}
use harbor_router.Handlers.Registry.{Incoming, handle_manifest}
use harbor_router.Handlers.Registry.Routing.{request_path}
use harbor_router.Handlers.Registry.Clean.{handle_manifest-status}

abbrev gateway : Gateway backend
gateway = record { world = world; manifest_requests = []; blob_requests = [] }

abbrev proxy : Text
proxy = codes "proxy"

abbrev nginx : ParsedPath
nginx = record { image = codes "nginx"; kind = manifests; reference = codes "1" }

abbrev incoming : Incoming
incoming = record {
  path = request_path proxy nginx;
  authorization = some (codes "Basic a");
  accept = [];
}

abbrev upstream : List (Text × Text)
upstream =
    (codes "set-cookie", codes "a=1") ∷ (codes "etag", codes "x") ∷ (codes "etag", codes "y") ∷ []

handle_manifest-status_example :
    ((r : Response) × ((resolve_manifest settings
          (registry 200)
          (codes "nginx")
          (codes "1")
          []
          world).0
        ≡ ok r)
      × ((handle_manifest settings (registry 200) (codes "nginx") (codes "1") [] gateway).0.status
          ≡ 200)
      × ((handle_manifest settings (registry 200) (codes "nginx") (codes "1") [] gateway).0.body
          ≡ r.body)
      × (is_safe_project_name r.project ≡ true))
    ⊎ (((handle_manifest settings (registry 200) (codes "nginx") (codes "1") [] gateway).0.status
          ≡ 404)
        × ((handle_manifest settings
              (registry 200)
              (codes "nginx")
              (codes "1")
              []
              gateway).1.manifest_requests
            ≡ []))
handle_manifest-status_example =
    handle_manifest-status settings (registry 200) (codes "nginx") (codes "1") [] gateway
      (λ tick ps project probe m. complete_all-IsExecutor 200 ps project probe m)
      (λ tick key r h. absurd (ground (arith, h)))
