-- ===== src/Handlers/Registry.antt =====
-- `registry_handler`, `handle_manifest`, `handle_tags` and `v2_check` of src/proxy.rs.
pub mod Clean
pub mod Routing
use harbor_router.Common.{
  ℕ, ◌+◌, ◌++◌, Bool, true, false, not, Option, none, some, List, [], ◌∷◌, ltb, if◌then◌else◌, all,
  keep, length, drop, Text, codes, Outcome, ok, err,
}
use harbor_router.Validation.{normalize_docker_library_image}
use harbor_router.Cache.{CacheBackend}
use harbor_router.Proxy.Paths.{ParsedPath, manifests, blobs, tags, parse_path}
use harbor_router.Metrics.Popularity.{record_manifest_request}
use harbor_router.Resolver.World.{Response, Environment, Settings, World}
use harbor_router.Resolver.Fanout.{is_visible_ascii}
use harbor_router.Resolver.Manifest.{resolve_manifest}
use harbor_router.Resolver.Tags.{resolve_tags}
use harbor_router.Handlers.Headers.{Reaction, build_response, error_response}
use harbor_router.Handlers.Blobs.{Gateway, handle_blob}

-- A request: its path, and the values of its Authorization and Accept headers. (A path is taken to
-- be ASCII, so that a byte is a character.)
pub record Incoming : Type 0 where
  pub path : Text
  pub authorization : Option Text
  pub accept : List Text

abbrev pub v2_check : Reaction
v2_check = record {
  status = 200;
  headers = (codes "docker-distribution-api-version", codes "registry/2.0") ∷ [];
  body = [];
}

unfoldable pub remainder : Text → Text → Text
remainder proxy_project path =
    let prefix_len = 4 + length proxy_project + 1 in
    if ltb prefix_len (length path) then drop prefix_len path else path

-- `get("Authorization").and_then(|v| v.to_str().ok()).is_none()`.
unfoldable pub lacks_auth : Option Text → Bool
lacks_auth none = true
lacks_auth (some v) = not (all is_visible_ascii v)

module _ {c : CacheBackend} (settings : Settings) (env : Environment) where
  unfoldable pub handle_manifest :
      (image reference : Text) → List Text → Gateway c → Reaction × Gateway c
  handle_manifest image reference accept g =
      let (r, world) = resolve_manifest settings env image reference accept g.world in
      elim r [
        | err e ↦ (
          error_response 404 (codes "MANIFEST_UNKNOWN") (codes "requested manifest not found"),
          record g { world = world },
        )
        | ok r ↦ (
          build_response r.status r.headers r.body,
          record g {
            world = world;
            manifest_requests = record_manifest_request image reference g.manifest_requests;
          },
        )
      ]

  unfoldable pub handle_tags : (image : Text) → Gateway c → Reaction × Gateway c
  handle_tags image g =
      let (r, world) = resolve_tags settings env image g.world in
      elim r [
        | err e ↦ (
          error_response 404 (codes "NAME_UNKNOWN") (codes "requested tag list not found"),
          record g { world = world },
        )
        | ok r ↦ (build_response r.status r.headers r.body, record g { world = world })
      ]

  unfoldable pub dispatch : ParsedPath → List Text → Gateway c → Reaction × Gateway c
  dispatch p accept g =
      let image = normalize_docker_library_image p.image in
      elim p.kind [
        | manifests ↦ handle_manifest image p.reference accept g
        | blobs ↦ handle_blob settings env image p.reference g
        | tags ↦ handle_tags image g
      ]

  unfoldable pub registry_handler :
      (proxy_project : Text) → Incoming → Gateway c → Reaction × Gateway c
  registry_handler proxy_project req g =
      let accept = keep (λ v. all is_visible_ascii v) req.accept in
      if lacks_auth req.authorization
      then (error_response 403 (codes "UNAUTHORIZED") (codes "authentication required"), g)
      else elim (parse_path (remainder proxy_project req.path)) [
        | err e ↦ (error_response 400 (codes "UNSUPPORTED") e, g)
        | ok p ↦ dispatch p accept g
      ]
