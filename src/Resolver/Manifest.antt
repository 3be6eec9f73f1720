-- ===== src/Resolver/Manifest.antt =====
-- `resolve_manifest`, the leader's and the followers' ways through `singleflight`, and
-- `cached_project` of src/resolver.rs. (`fetch_manifest_with_retry` never gives `none`.)
pub mod Hits
pub mod Memory
pub mod Answers
use harbor_router.Common.{
  ℕ, ◌+◌, ◌-◌, ◌/◌, ◌++◌, Bool, true, false, not, ◌&&◌, Option, none, some, List, [], ◌∷◌, ltb,
  ◌==◌, if◌then◌else◌, Text, codes, text_eq, Outcome, ok, err,
}
use harbor_router.Cache.{CacheBackend}
use harbor_router.Resolver.Status.{is_all_projects_non_200}
use harbor_router.Resolver.CacheValue.{
  negative_cache_sentinel, encode_cache_value, decode_cache_value,
}
use harbor_router.Resolver.World.{
  Response, Role, leader, found_result, timed_out, channel_dropped, woken, Environment, Settings,
  Refresh, World, now_epoch_secs, cache_get, cache_set, cache_set_with_ttl, cache_delete,
}
use harbor_router.Resolver.Fetch.{fetch_manifest_with_retry}
use harbor_router.Resolver.Fanout.{parallel_lookup, not_found_error}

abbrev pub image_key : Text → Text → Text
image_key image reference = image ++ b':' ∷ reference

abbrev pub img_key : Text → Text
img_key image = codes "img:" ++ image

-- What a caller of `singleflight` that does not lead is given.
abbrev pub follow : Role → Option (Outcome Response)
follow leader = none
follow (found_result r) = some r
follow timed_out = some (err (codes "singleflight: follower timed out waiting for leader"))
follow channel_dropped = some (err (codes "singleflight: leader dropped channel"))
follow (woken none) = some (err (codes "singleflight: leader sent empty result"))
follow (woken (some r)) = some r

-- A cached value, as a hit reads it.
unfoldable pub read_hit : Settings → Text → Text × Option ℕ
read_hit settings value =
    if settings.stale_while_revalidate == 0 then (value, none) else decode_cache_value value

unfoldable pub is_stale : Settings → ℕ → Option ℕ → Bool
is_stale settings now none = false
is_stale settings now (some timestamp) =
    not (settings.stale_while_revalidate == 0) && ltb (settings.cache_ttl / 1000) (now - timestamp)

-- The manifest that a request to the cached project brought.
abbrev pub served : Option (Outcome Response) → Option Response
served (some (ok r)) = if r.status == 200 then some r else none
served _ = none

module _ {c : CacheBackend} (settings : Settings) (env : Environment) where
  unfoldable pub singleflight :
      (key image reference : Text) → List Text → World c → Outcome Response × World c
  singleflight key image reference accept w = elim (follow (env.join w.tick key)) [
    | some r ↦ (r, record w { tick = w.tick + 1 })
    | none ↦ parallel_lookup settings env image reference accept w
  ]

  -- "Populate cache".
  unfoldable pub populate : (key image project : Text) → World c → World c
  populate key image project w =
      let w' =
        if settings.stale_while_revalidate == 0
        then cache_set env key project w
        else cache_set_with_ttl env key (encode_cache_value project (now_epoch_secs env w))
            (settings.cache_ttl + settings.stale_while_revalidate) w in
      cache_set env (img_key image) project w'

  -- What follows the flight.
  unfoldable pub remember : (key image : Text) → Outcome Response → World c → World c
  remember key image (ok r) w = populate key image r.project w
  remember key image (err e) w =
      if is_all_projects_non_200 e
      then cache_set_with_ttl env key negative_cache_sentinel settings.negative_cache_ttl w
      else w

  unfoldable pub look_up :
      (key image reference : Text) → List Text → World c → Outcome Response × World c
  look_up key image reference accept w =
      let (r, w') = singleflight key image reference accept w in (r, remember key image r w')

  -- A hit that is served spawns a refresh if it is stale.
  unfoldable pub serve : (key image reference : Text) → List Text → Bool → World c → World c
  serve key image reference accept stale w =
      if stale
      then record w {
        spawned =
            record { image = image; reference = reference; accept = accept; cache_key = key }
            ∷ w.spawned;
      }
      else w

  unfoldable pub resolve_hit :
      (key image reference : Text)
      → List Text
      → Text × Option ℕ
      → World c
      → Outcome Response × World c
  resolve_hit key image reference accept (project, timestamp) w =
      let stale = is_stale settings (now_epoch_secs env w) timestamp in
      let (r, w') = fetch_manifest_with_retry settings env project image reference accept w in
      if text_eq project negative_cache_sentinel
      then (err (not_found_error image reference), w)
      else elim (served r) [
        | some manifest ↦ (ok manifest, serve key image reference accept stale w')
        | none ↦ look_up key image reference accept (cache_delete env key w')
      ]

  unfoldable pub resolve_manifest :
      (image reference : Text) → List Text → World c → Outcome Response × World c
  resolve_manifest image reference accept w =
      let key = image_key image reference in
      let (cached, w') = cache_get env key w in
      elim cached [
        | none ↦ look_up key image reference accept w'
        | some value ↦ resolve_hit key image reference accept (read_hit settings value) w'
      ]

  -- The task that a stale hit spawns.
  unfoldable pub run_refresh : Refresh → World c → World c
  run_refresh task w =
      let (r, w') = parallel_lookup settings env task.image task.reference task.accept w in
      elim r [
        | err e ↦ w'
        | ok refresh ↦ cache_set env (img_key task.image) refresh.project (
            cache_set_with_ttl env task.cache_key
              (encode_cache_value refresh.project (now_epoch_secs env w'))
              (settings.cache_ttl + settings.stale_while_revalidate) w')
      ]

  unfoldable pub cached_project : (image reference : Text) → World c → Option Text × World c
  cached_project image reference w =
      let (cached, w') = cache_get env (image_key image reference) w in
      elim cached [
        | some value ↦ (some (decode_cache_value value).0, w')
        | none ↦ cache_get env (img_key image) w'
      ]
