-- ===== src/Resolver/Manifest/Answers.antt =====
-- Which manifests `resolve_manifest` can answer with.
use Prim.Native.Nat.{max}
use harbor_router.Common.{
  ℕ, zero, suc, ◌+◌, ◌≡◌, inl, inr, ap, ◌∙◌, true, ◌&&◌, Option, none, some, List, arith, ltb,
  Bool-cases, Option-cases, Text, text_eq, Outcome, ok, err,
}
use harbor_router.Validation.{is_safe_project_name}
use harbor_router.Cache.{CacheBackend}
use harbor_router.Resolver.CacheValue.{negative_cache_sentinel}
use harbor_router.Resolver.World.{
  Response, Reply, failed, broken, replied, Environment, Settings, World, of_reply, cache_get,
  cache_delete,
}
use harbor_router.Resolver.Fetch.{
  fetch_manifest, is_retryable, retry_loop, fetch_manifest_with_retry,
}
use harbor_router.Resolver.Fanout.Lookup.{IsExecutor}
use harbor_router.Resolver.Fanout.Verdicts.{parallel_lookup-IsBrought}
use harbor_router.Resolver.Manifest.{
  follow, image_key, served, singleflight, look_up, read_hit, resolve_hit, resolve_manifest,
}

-- A manifest, from a project whose name may stand in a URL.
abbrev pub IsGood : Response → Type 0
IsGood r = (r.status ≡ 200) × (is_safe_project_name r.project ≡ true)

-- What a leader publishes is good, as far as followers of this environment see it.
abbrev pub IsTrusty : Environment → Type 0
IsTrusty env =
    (tick : ℕ) (key : Text) (r : Response) → follow (env.join tick key) ≡ some (ok r) → IsGood r

pub of_reply-project :
    (project : Text) (reply : Reply) (r : Response)
    → of_reply project reply ≡ ok r
    → r.project ≡ project
unfolding of_reply
of_reply-project project (failed e) r h = absurd (ground arith)
of_reply-project project (broken s e) r h = absurd (ground arith)
of_reply-project project (replied s hs b) r h = ground arith

served-status :
    (o : Option (Outcome Response)) (r : Response)
    → served o ≡ some r
    → (o ≡ some (ok r)) × (r.status ≡ 200)
served-status none r h = absurd (ground arith)
served-status (some (err e)) r h = absurd (ground arith)
served-status (some (ok x)) r h = (ground arith, ground arith)

module _ {c : CacheBackend} (settings : Settings) (env : Environment) (image reference : Text)
    (accept : List Text) where
  fetch_manifest-project :
      (project : Text) (w : World c) (r : Response)
      → (fetch_manifest settings env project image reference accept w).0 ≡ ok r
      → (r.project ≡ project) × (is_safe_project_name project ≡ true)
  unfolding fetch_manifest
  fetch_manifest-project project w r h = elim (Bool-cases (is_safe_project_name project)) [
    | inl safe ↦ (of_reply-project project _ r (rw (safe, fetch_manifest) at h), safe)
    | inr bad ↦ absurd (cc (rw (bad, fetch_manifest) at h))
  ]

  retry_loop-project :
      (max_attempts left attempt : ℕ) (project : Text) (w : World c) (r : Response)
      → (retry_loop settings env max_attempts left attempt project image reference accept w).0
        ≡ some (ok r)
      → (r.project ≡ project) × (is_safe_project_name project ≡ true)
  unfolding retry_loop
  retry_loop-project max_attempts zero attempt project w r h = absurd (ground arith)
  retry_loop-project max_attempts (suc left) attempt project w r h =
      let (o, w') = fetch_manifest settings env project image reference accept w in
      elim (Bool-cases (is_retryable o && ltb (attempt + 1) max_attempts)) [
        | inl again ↦
            retry_loop-project max_attempts left (attempt + 1) project _ r
              (rw (again, retry_loop) at h)
        | inr stop ↦ fetch_manifest-project project w r (ground (arith, rw (stop, retry_loop) at h))
      ]

  singleflight-IsGood :
      (key : Text) (w : World c) (r : Response)
      → IsExecutor env
      → IsTrusty env
      → (singleflight settings env key image reference accept w).0 ≡ ok r
      → IsGood r
  unfolding singleflight
  singleflight-IsGood key w r fair trusty h = elim (Option-cases (follow (env.join w.tick key))) [
    | inl leads ↦
        let (b, _) =
          parallel_lookup-IsBrought settings env image reference accept w r fair
            (rw (leads, singleflight) at h) in
        (b.good, b.safe)
    | inr (o, follows) ↦
        let same : o ≡ ok r = rw (follows, singleflight) at h in
        trusty w.tick key r (follows ∙ ap some same)
  ]

  resolve_hit-IsGood :
      (key project : Text) (timestamp : Option ℕ) (w : World c) (r : Response)
      → IsExecutor env
      → IsTrusty env
      → (resolve_hit settings env key image reference accept (project, timestamp) w).0 ≡ ok r
      → IsGood r
  unfolding resolve_hit look_up fetch_manifest_with_retry
  resolve_hit-IsGood key project timestamp w r fair trusty h =
      elim (Bool-cases (text_eq project negative_cache_sentinel)) [
        | inl negative ↦ absurd (cc (rw (negative, resolve_hit) at h))
        | inr other ↦
            let (o, w') = fetch_manifest_with_retry settings env project image reference accept w in
            elim (Option-cases (served o)) [
              | inl missed ↦
                  singleflight-IsGood key (cache_delete env key w') r fair trusty
                    (rw (other, missed, resolve_hit) at h)
              | inr (x, hit) ↦
                  let same : x ≡ r = ground (arith, rw (other, hit, resolve_hit) at h) in
                  let (got, good) = served-status o x hit in
                  let (from, safe) =
                    retry_loop-project (max settings.retry_max_attempts 1) _ 0 project w x got in
                  rw (← same) (good, rw from safe)
            ]
      ]

  -- Whatever the cache holds and however the lookup goes, a manifest that `resolve_manifest`
  -- answers with has status 200 and comes from a project whose name passes its check; the
  -- executor completes only futures it was given, and what a follower is given by another
  -- leader is such a manifest too.
  pub resolve_manifest-IsGood :
      (w : World c) (r : Response)
      → IsExecutor env
      → IsTrusty env
      → (resolve_manifest settings env image reference accept w).0 ≡ ok r
      → IsGood r
  unfolding resolve_manifest look_up
  resolve_manifest-IsGood w r fair trusty h =
      let (cached, w') = cache_get env (image_key image reference) w in
      elim (Option-cases cached) [
        | inl miss ↦
            singleflight-IsGood (image_key image reference) w' r fair trusty
              (rw (miss, resolve_manifest) at h)
        | inr (value, hit) ↦
            let (project, timestamp) = read_hit settings value in
            resolve_hit-IsGood (image_key image reference) project timestamp w' r fair trusty
              (rw (hit, resolve_manifest) at h)
      ]
