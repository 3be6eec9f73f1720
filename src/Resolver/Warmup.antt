-- ===== src/Resolver/Warmup.antt =====
-- Warming the cache: `warm_cache_from_redis`, `persist_hot_entries` and `start_cache_warming` of src/resolver.rs. The library
-- that reads and writes JSON is a parameter; a map is iterated in the order of its list.
pub mod Entries
pub mod Hot
pub mod Stored
pub mod Ticks
use harbor_router.Common.{
  ℕ, ◌+◌, ◌++◌, Bool, true, false, not, ◌&&◌, Option, none, some, List, [], ◌∷◌, ◌==◌,
  if◌then◌else◌, is_empty, before, Text, codes, text_eq, Dict, insert,
}
use harbor_router.Validation.{is_safe_project_name}
use harbor_router.Cache.{CacheBackend}
use harbor_router.Metrics.Popularity.{top_images}
use harbor_router.Resolver.CacheValue.{
  negative_cache_sentinel, encode_cache_value, decode_cache_value,
}
use harbor_router.Resolver.World.{
  Environment, Settings, World, now_epoch_secs, cache_get, cache_set, cache_set_with_ttl,
}
use harbor_router.Resolver.Manifest.{img_key}

-- `serde_json` on maps of texts: `from_str` and `to_string`.
pub record MapJson : Type 0 where
  pub from_str : Text → Option (Dict Text)
  pub to_string : Dict Text → Option Text

abbrev pub warmup_cache_key : Text
warmup_cache_key = codes "warmup:mappings"

-- One hour.
abbrev pub warmup_ttl : ℕ
warmup_ttl = 3600000

abbrev pub warm_value : Settings → ℕ → Text → Text
warm_value settings now project =
    if settings.stale_while_revalidate == 0 then project else encode_cache_value project now

-- The mappings that a cached text holds.
unfoldable pub warm_mappings : MapJson → Option Text → Dict Text
warm_mappings json none = []
warm_mappings json (some text) = elim (json.from_str text) [ none ↦ [] | some mappings ↦ mappings ]

pub data WarmingTurn : Type 0 where
  ticked : (manifest_requests : Dict ℕ) → WarmingTurn
  shutdown : WarmingTurn

module _ {c : CacheBackend} (settings : Settings) (env : Environment) where
  -- One mapping, at the time when the warming began, in seconds.
  unfoldable pub warm_entry : ℕ → Text × Text → World c → World c
  warm_entry now (key, project) w =
      let w' =
        cache_set_with_ttl env key (warm_value settings now project)
          (settings.cache_ttl + settings.stale_while_revalidate) w in
      if is_safe_project_name project
      then cache_set env (img_key (before b':' key)) project w'
      else w

  unfoldable pub warm_entries : ℕ → Dict Text → World c → World c
  warm_entries now [] w = w
  warm_entries now (mapping ∷ mappings) w = warm_entries now mappings (warm_entry now mapping w)

  unfoldable pub warm_cache_from_redis : MapJson → World c → World c
  warm_cache_from_redis json w =
      let (cached, w') = cache_get env warmup_cache_key w in
      warm_entries (now_epoch_secs env w') (warm_mappings json cached) w'

  -- The projects of the popular images that the cache knows.
  unfoldable pub hot_mappings : List (Text × ℕ) → Dict Text → World c → Dict Text × World c
  hot_mappings [] mappings w = (mappings, w)
  hot_mappings ((key, count) ∷ images) mappings w =
      let (cached, w') = cache_get env key w in
      let more = elim cached as (λ x. Dict Text) [
        | none ↦ mappings
        | some value ↦
            let project = (decode_cache_value value).0 in
            if not (text_eq project negative_cache_sentinel) && is_safe_project_name project
            then insert key project mappings
            else mappings
      ] in
      hot_mappings images more w'

  unfoldable pub persist_hot_entries : MapJson → Dict ℕ → World c → World c
  persist_hot_entries json manifest_requests w =
      let images = top_images settings.cache_warmup_top_n manifest_requests in
      let (mappings, w') = hot_mappings images [] w in
      let written : World c = elim (json.to_string mappings) [
        | none ↦ w'
        | some text ↦ cache_set_with_ttl env warmup_cache_key text warmup_ttl w'
      ] in
      if settings.cache_warmup_top_n == 0 then w else if is_empty mappings then w' else written

  -- What the loop waits for: the ticker, when the table of popular images is so, or the shutdown.
  -- (The first tick is at once, before the loop.)
  unfoldable pub warming_loop : MapJson → List WarmingTurn → World c → World c
  unfolding persist_hot_entries
  warming_loop json [] w = w
  warming_loop json (ticked manifest_requests ∷ turns) w =
      warming_loop json turns (persist_hot_entries json manifest_requests w)
  warming_loop json (shutdown ∷ turns) w = w

  unfoldable pub start_cache_warming : MapJson → List WarmingTurn → World c → World c
  unfolding warm_cache_from_redis warming_loop
  start_cache_warming json turns w = warming_loop json turns (warm_cache_from_redis json w)
