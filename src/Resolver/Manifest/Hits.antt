-- ===== src/Resolver/Manifest/Hits.antt =====
-- What `resolve_manifest` and `cached_project` make of what the cache holds for their key.
use harbor_router.Common.{
  ◌≡◌, refl, none, some, List, arith, Text, text_eq, text_eq_self, Outcome, err,
}
use harbor_router.Cache.{CacheBackend}
use harbor_router.Resolver.CacheValue.{negative_cache_sentinel, decode_cache_value}
use harbor_router.Resolver.World.{Response, Environment, Settings, World, cache_get}
use harbor_router.Resolver.Fanout.{not_found_error}
use harbor_router.Resolver.Manifest.{
  image_key, read_hit, singleflight, remember, look_up, resolve_hit, resolve_manifest,
  cached_project,
}

pub sentinel_hit :
    (settings : Settings)
    → read_hit settings negative_cache_sentinel ≡ (negative_cache_sentinel, none)
unfolding read_hit decode_cache_value text_eq
sentinel_hit settings = ground arith

module _ {c : CacheBackend} (settings : Settings) (env : Environment) (image reference : Text)
    (accept : List Text) (w : World c) where
  -- The world after a miss, when the lookup begins.
  abbrev pub missed : World c
  missed = (cache_get env (image_key image reference) w).1

  -- The answer of the lookup that follows a miss, and the world after it.
  abbrev pub flown : Outcome Response × World c
  flown = singleflight settings env (image_key image reference) image reference accept missed

  pub resolve_manifest-miss :
      (cache_get env (image_key image reference) w).0 ≡ none
      → resolve_manifest settings env image reference accept w
        ≡ (flown.0, remember settings env (image_key image reference) image flown.0 flown.1)
  unfolding look_up resolve_manifest singleflight remember
  resolve_manifest-miss h = rw (h, resolve_manifest) refl

  pub resolve_manifest-sentinel :
      (cache_get env (image_key image reference) w).0 ≡ some negative_cache_sentinel
      → resolve_manifest settings env image reference accept w
        ≡ (err (not_found_error image reference), missed)
  unfolding resolve_hit resolve_manifest
  resolve_manifest-sentinel h =
      rw (h, resolve_manifest)
        (rw (sentinel_hit settings) (rw (text_eq_self negative_cache_sentinel) refl))

  pub cached_project-value :
      (value : Text)
      → (cache_get env (image_key image reference) w).0 ≡ some value
      → (cached_project settings env image reference w).0 ≡ some (decode_cache_value value).0
  unfolding cached_project
  cached_project-value value h = rw (h, cached_project) refl
