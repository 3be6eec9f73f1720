-- ===== src/Handlers/Registry/Clean.antt =====
-- What of the upstream's answer reaches the client, and what a refused request does.
use harbor_router.Common.{
  ℕ, ◌≡◌, ◌⊎◌, inl, inr, refl, true, some, List, [], Bool-cases, Outcome-cases, Text, codes,
  text_eq, text_eq_iff, lookup, Outcome, ok, err,
}
use harbor_router.Validation.{is_safe_project_name}
use harbor_router.Cache.{CacheBackend}
use harbor_router.Proxy.Paths.{PathKind, ParsedPath, manifests, blobs, tags, parse_path}
use harbor_router.Resolver.World.{Response, Environment, Settings, World}
use harbor_router.Resolver.Fanout.Lookup.{IsExecutor}
use harbor_router.Resolver.Manifest.{resolve_manifest}
use harbor_router.Resolver.Manifest.Answers.{IsTrusty, resolve_manifest-IsGood}
use harbor_router.Resolver.Tags.{resolve_tags}
use harbor_router.Handlers.Headers.{
  Reaction, is_allowed, copy_headers, build_response, error_response,
}
use harbor_router.Handlers.Headers.Allowed.{lookup-copy_headers}
use harbor_router.Handlers.Blobs.{
  Gateway, stream_response, proxy_blob, find_blob, serve_blob, handle_blob,
}
use harbor_router.Handlers.Registry.{
  Incoming, lacks_auth, remainder, handle_manifest, handle_tags, dispatch, registry_handler,
}

-- All headers are on the list of those that may be passed on.
abbrev pub IsClean : Reaction → Type 0
IsClean r = (name value : Text) → lookup name r.headers ≡ some value → is_allowed name ≡ true

copied-IsClean :
    (src : List (Text × Text)) (name value : Text)
    → lookup name (copy_headers src []) ≡ some value
    → is_allowed name ≡ true
unfolding lookup
copied-IsClean src name value h = elim (Bool-cases (is_allowed name)) [
  | inl fine ↦ fine
  | inr hidden ↦ absurd (cc (h, rw hidden at (lookup-copy_headers name src [])))
]

error_response-IsClean :
    (status : ℕ) (code message : Text) → IsClean (error_response status code message)
unfolding error_response lookup is_allowed text_eq
error_response-IsClean status code message name value h =
    elim (Bool-cases (text_eq (codes "content-type") name)) [
      | inl same ↦
          let e : codes "content-type" ≡ name = (text_eq_iff (codes "content-type") name).0 same in
          rw (← e) refl
      | inr other ↦ absurd (cc (h, other))
    ]

build_response-IsClean :
    (status : ℕ) (headers : List (Text × Text)) (body : Text)
    → IsClean (build_response status headers body)
unfolding build_response
build_response-IsClean status headers body name value h = copied-IsClean headers name value h

stream_response-IsClean :
    (o : Outcome (ℕ × List (Text × Text) × Text)) → IsClean (stream_response o)
unfolding stream_response
stream_response-IsClean (err e) =
    error_response-IsClean 502 (codes "BLOB_UNKNOWN") (codes "upstream error")
stream_response-IsClean (ok (status, headers, body)) =
    λ name value h. copied-IsClean headers name value h

module _ {c : CacheBackend} (settings : Settings) (env : Environment) where
  proxy_blob-IsClean :
      (project image digest : Text) (w : World c)
      → IsClean (proxy_blob settings env project image digest w).0
  unfolding proxy_blob
  proxy_blob-IsClean project image digest w = elim (Bool-cases (is_safe_project_name project)) [
    | inl safe ↦ rw safe (stream_response-IsClean _)
    | inr bad ↦ rw bad (error_response-IsClean 500 _ _)
  ]

  handle_blob-IsClean :
      (image digest : Text) (g : Gateway c) → IsClean (handle_blob settings env image digest g).0
  unfolding handle_blob serve_blob
  handle_blob-IsClean image digest g =
      elim (Outcome-cases (find_blob settings env image digest g.world).0) [
        | inl (project, e) ↦
            rw (e, handle_blob, serve_blob)
              (proxy_blob-IsClean project image digest
                (find_blob settings env image digest g.world).1)
        | inr (m, e) ↦ rw (e, handle_blob, serve_blob) (error_response-IsClean 404 _ _)
      ]

  handle_manifest-IsClean :
      (image reference : Text) (accept : List Text) (g : Gateway c)
      → IsClean (handle_manifest settings env image reference accept g).0
  unfolding handle_manifest
  handle_manifest-IsClean image reference accept g =
      elim (Outcome-cases (resolve_manifest settings env image reference accept g.world).0) [
        | inl (r, e) ↦ rw (e, handle_manifest) (build_response-IsClean r.status r.headers r.body)
        | inr (m, e) ↦ rw (e, handle_manifest) (error_response-IsClean 404 _ _)
      ]

  handle_tags-IsClean :
      (image : Text) (g : Gateway c) → IsClean (handle_tags settings env image g).0
  unfolding handle_tags
  handle_tags-IsClean image g = elim (Outcome-cases (resolve_tags settings env image g.world).0) [
    | inl (r, e) ↦ rw (e, handle_tags) (build_response-IsClean r.status r.headers r.body)
    | inr (m, e) ↦ rw (e, handle_tags) (error_response-IsClean 404 _ _)
  ]

  dispatch-IsClean :
      (p : ParsedPath) (accept : List Text) (g : Gateway c)
      → IsClean (dispatch settings env p accept g).0
  unfolding dispatch
  dispatch-IsClean p accept g = by_kind p.kind
    where
      by_kind :
          (kind : PathKind)
          → IsClean
              (dispatch settings env
                (record { image = p.image; kind = kind; reference = p.reference })
                accept
                g).0
      by_kind manifests = handle_manifest-IsClean _ p.reference accept g
      by_kind blobs = handle_blob-IsClean _ p.reference g
      by_kind tags = handle_tags-IsClean _ g

  -- Every response of the registry handler, to whatever request and from whatever the upstream
  -- answers, has only headers of the allow-list.
  pub registry_handler-IsClean :
      (proxy_project : Text) (req : Incoming) (g : Gateway c)
      → IsClean (registry_handler settings env proxy_project req g).0
  unfolding registry_handler
  registry_handler-IsClean proxy_project req g = elim (Bool-cases (lacks_auth req.authorization)) [
    | inl without ↦ rw without (error_response-IsClean 403 _ _)
    | inr with_auth ↦ elim (Outcome-cases (parse_path (remainder proxy_project req.path))) [
      | inl (p, e) ↦ rw (with_auth, e, registry_handler) (dispatch-IsClean p _ g)
      | inr (m, e) ↦ rw (with_auth, e, registry_handler) (error_response-IsClean 400 _ _)
    ]
  ]

  -- A request for a manifest is answered with status 200 and the body of the manifest that was
  -- resolved, of a project whose name passes its check, or with 404, in which case it is not
  -- counted as a request for the image; the executor completes only futures it was given, and
  -- leaders publish only such manifests.
  pub handle_manifest-status :
      (image reference : Text) (accept : List Text) (g : Gateway c)
      → IsExecutor env
      → IsTrusty env
      → ((r : Response) × ((resolve_manifest settings env image reference accept g.world).0 ≡ ok r)
          × ((handle_manifest settings env image reference accept g).0.status ≡ 200)
          × ((handle_manifest settings env image reference accept g).0.body ≡ r.body)
          × (is_safe_project_name r.project ≡ true))
        ⊎ (((handle_manifest settings env image reference accept g).0.status ≡ 404)
            × ((handle_manifest settings env image reference accept g).1.manifest_requests
                ≡ g.manifest_requests))
  unfolding handle_manifest build_response error_response
  handle_manifest-status image reference accept g fair trusty =
      elim (Outcome-cases (resolve_manifest settings env image reference accept g.world).0) [
        | inl (r, e) ↦
            let (good, safe) =
              resolve_manifest-IsGood settings env image reference accept g.world r fair trusty e in
            inl (r, e, rw (e, handle_manifest) (rw good refl), rw (e, handle_manifest) refl, safe)
        | inr (m, e) ↦ inr (rw (e, handle_manifest) refl, rw (e, handle_manifest) refl)
      ]
