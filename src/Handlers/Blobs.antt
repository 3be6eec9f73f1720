-- ===== src/Handlers/Blobs.antt =====
-- Blobs: `handle_blob`, `proxy_blob` and `probe_blob_project` of src/proxy.rs.
pub mod Probes
use harbor_router.Common.{
  ℕ, ◌+◌, ◌++◌, Bool, true, false, ◌||◌, Option, none, some, List, [], ◌∷◌, ◌==◌, if◌then◌else◌,
  is_empty, keep, Text, codes, Dict, Outcome, ok, err,
}
use harbor_router.Validation.{is_safe_project_name}
use harbor_router.Cache.{CacheBackend}
use harbor_router.Proxy.Paths.{blobs}
use harbor_router.Proxy.Urls.{upstream_path}
use harbor_router.Metrics.Popularity.{record_blob_request}
use harbor_router.Resolver.World.{
  Method, Request, Reply, failed, broken, replied, Probe, elapsed, answered, Turn, completed,
  deadline, Environment, Settings, World,
}
use harbor_router.Resolver.Manifest.{cached_project}
use harbor_router.Handlers.Headers.{Reaction, copy_headers, status_or, error_response}

-- What the handlers share: the resolver's world, and the tables of popular images.
pub record Gateway (c : CacheBackend) : Type 0 where
  pub world : World c
  pub manifest_requests : Dict ℕ
  pub blob_requests : Dict ℕ

abbrev pub blob_request : Settings → Text → Text → Text → Request
blob_request settings project image digest = record {
  method = Method.get;
  url = settings.harbor_url ++ upstream_path blobs project image digest;
  authorization = settings.service_auth;
  accept = [];
}

unfoldable pub stream_response : Outcome (ℕ × List (Text × Text) × Text) → Reaction
stream_response (err e) = error_response 502 (codes "BLOB_UNKNOWN") (codes "upstream error")
stream_response (ok (status, headers, body)) = record {
  status = status_or 502 status;
  headers = copy_headers headers [];
  body = body;
}

-- The status of a response to a HEAD request, whose body is not read.
abbrev pub head_status : Probe → Option ℕ
head_status elapsed = none
head_status (answered (failed e)) = none
head_status (answered (broken status e)) = some status
head_status (answered (replied status headers body)) = some status

unfoldable pub has_blob : Probe → Bool
has_blob probe = elim (head_status probe) [ none ↦ false | some s ↦ s == 200 || s == 307 ]

unfoldable pub probe_loop : List Turn → Option Text
probe_loop [] = none
probe_loop (deadline ∷ turns) = probe_loop turns
probe_loop (completed project probe ∷ turns) =
    let rest = probe_loop turns in if has_blob probe then some project else rest

abbrev pub blob_error : Text → Text → Text
blob_error image digest =
    codes "blob " ++ (image ++ (codes "/" ++ (digest ++ codes " not found in any project")))

module _ {c : CacheBackend} (settings : Settings) (env : Environment) where
  unfoldable pub proxy_blob : (project image digest : Text) → World c → Reaction × World c
  proxy_blob project image digest w =
      if is_safe_project_name project
      then (
        stream_response (env.stream w.tick (blob_request settings project image digest)),
        record w { tick = w.tick + 1 },
      )
      else (error_response 500 (codes "BLOB_UNKNOWN") (codes "internal routing error"), w)

  unfoldable pub probe_blob_project : (image digest : Text) → World c → Outcome Text × World c
  probe_blob_project image digest w =
      let futures = keep is_safe_project_name w.projects in
      if is_empty w.projects
      then (err (codes "no proxy-cache projects discovered"), w)
      else elim (probe_loop (env.complete w.tick futures)) [
        | some project ↦ (ok project, record w { tick = w.tick + 1 })
        | none ↦ (err (blob_error image digest), record w { tick = w.tick + 1 })
      ]

  unfoldable pub find_blob : (image digest : Text) → World c → Outcome Text × World c
  find_blob image digest w =
      let (cached, w') = cached_project settings env image digest w in
      elim cached [ some project ↦ (ok project, w') | none ↦ probe_blob_project image digest w' ]

  unfoldable pub serve_blob : (image digest : Text) → World c → Reaction × World c
  serve_blob image digest w =
      let (found, w') = find_blob image digest w in
      elim found [
        | ok project ↦ proxy_blob project image digest w'
        | err e ↦ (error_response 404 (codes "BLOB_UNKNOWN") (codes "requested blob not found"), w')
      ]

  unfoldable pub handle_blob : (image digest : Text) → Gateway c → Reaction × Gateway c
  handle_blob image digest g =
      let (reaction, world) = serve_blob image digest g.world in
      (
        reaction,
        record g { world = world; blob_requests = record_blob_request image g.blob_requests },
      )
