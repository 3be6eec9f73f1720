-- ===== src/Resolver/Tags.antt =====
-- Tag lists: `fetch_tags` and `resolve_tags` of src/resolver.rs.
pub mod Listed
use harbor_router.Common.{
  ℕ, ◌+◌, ◌++◌, Bool, true, false, Option, none, some, List, [], ◌∷◌, ltb, ◌==◌, if◌then◌else◌,
  is_empty, keep, length, take, Text, codes, Outcome, ok, err,
}
use harbor_router.Validation.{is_safe_project_name}
use harbor_router.Cache.{CacheBackend}
use harbor_router.Proxy.Paths.{tags}
use harbor_router.Proxy.Urls.{upstream_path}
use harbor_router.Resolver.World.{
  Response, Method, Request, Probe, elapsed, answered, Turn, completed, deadline, Environment,
  Settings, World, of_reply, unsafe_project, cache_get, cache_set_with_ttl, cache_delete,
}

abbrev pub tags_key : Text → Text
tags_key image = codes "tags:" ++ image

abbrev pub tags_request : Settings → Text → Text → Request
tags_request settings project image = record {
  method = Method.get;
  url = settings.harbor_url ++ upstream_path tags project image [];
  authorization = settings.service_auth;
  accept = [];
}

-- What a future of the fan-out gives. Its project has passed its check.
unfoldable pub tags_result : Text → Probe → Outcome Response
tags_result project elapsed = err (codes "timeout probing " ++ project)
tags_result project (answered reply) = of_reply project reply

abbrev pub tags_error : Text → Option Text → Text
tags_error image (some e) = codes "all projects failed for tags, last error: " ++ e
tags_error image none =
    codes "tags for image " ++ (image ++ codes " not found in any proxy-cache project")

-- A response that lists tags.
abbrev pub listed : Outcome Response → Option Response
listed (ok r) = if r.status == 200 then some r else none
listed (err e) = none

abbrev pub newest_error : Outcome Response → Option Text → Option Text
newest_error (err e) last_err = some e
newest_error (ok r) last_err = last_err

module _ {c : CacheBackend} (settings : Settings) (env : Environment) where
  unfoldable pub fetch_tags : (project image : Text) → World c → Outcome Response × World c
  fetch_tags project image w =
      if is_safe_project_name project
      then (
        of_reply project (env.reply w.tick (tags_request settings project image)),
        record w { tick = w.tick + 1 },
      )
      else (err (unsafe_project project), w)

  -- The loop over the results. It has no deadline.
  unfoldable pub tags_loop :
      (image : Text) → List Turn → Option Text → World c → Outcome Response × World c
  tags_loop image [] last_err w = (err (tags_error image last_err), w)
  tags_loop image (deadline ∷ turns) last_err w = tags_loop image turns last_err w
  tags_loop image (completed project probe ∷ turns) last_err w =
      let r = tags_result project probe in
      let w' = record w { tick = w.tick + 1 } in
      let rest = tags_loop image turns (newest_error r last_err) w' in
      elim (listed r) [
        | none ↦ rest
        | some best ↦
            (ok best, cache_set_with_ttl env (tags_key image) best.project settings.cache_ttl w')
      ]

  unfoldable pub fan_out_tags : (image : Text) → World c → Outcome Response × World c
  fan_out_tags image w =
      let projects =
        if ltb settings.max_fanout (length w.projects)
        then take settings.max_fanout w.projects
        else w.projects in
      let futures = keep is_safe_project_name projects in
      if is_empty w.projects
      then (err (codes "no proxy-cache projects discovered"), w)
      else if is_empty futures
      then (err (codes "no available proxy-cache projects"), w)
      else tags_loop image (env.complete w.tick futures) none w

  unfoldable pub resolve_tags : (image : Text) → World c → Outcome Response × World c
  resolve_tags image w =
      let (cached, w') = cache_get env (tags_key image) w in
      elim cached [
        | none ↦ fan_out_tags image w'
        | some project ↦
            let (r, w'') = fetch_tags project image w' in
            if is_safe_project_name project
            then elim (listed r) [
              | some hit ↦ (ok hit, w'')
              | none ↦ fan_out_tags image (cache_delete env (tags_key image) w'')
            ]
            else fan_out_tags image w'
      ]
