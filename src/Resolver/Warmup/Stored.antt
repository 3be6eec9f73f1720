-- ===== src/Resolver/Warmup/Stored.antt =====
-- What one process stores for the others is what they load.
use harbor_router.Common.{
  ℕ, ◌+◌, ◌<◌, ◌≡◌, refl, ap, ◌∙◌, false, some, [], ◌∷◌, arith, ◌==◌, is_empty, text_eq_self, Text,
  Dict, lookup,
}
use harbor_router.Cache.{CacheBackend}
use harbor_router.Cache.Lawful.{IsLawful}
use harbor_router.Metrics.Popularity.{top_images}
use harbor_router.Resolver.World.{Environment, Settings, World, now_ms, cache_get}
use harbor_router.Resolver.Warmup.{
  MapJson, warmup_cache_key, warmup_ttl, warm_mappings, hot_mappings, persist_hot_entries,
}
use harbor_router.Resolver.Warmup.Hot.{IsHot, hot_mappings-IsHot}

is_empty_of :
    (key project : Text) (mappings : Dict Text)
    → lookup key mappings ≡ some project
    → is_empty mappings ≡ false
unfolding lookup
is_empty_of key project [] h = cc
is_empty_of key project (_ ∷ _) h = refl

module _ {c : CacheBackend} (settings : Settings) (law : IsLawful c settings.cache_ttl)
    (env other : Environment) (json : MapJson) (requests : Dict ℕ) (w w' : World c) where
  -- What the first process gathers, and its world then.
  abbrev gathered : Dict Text × World c
  gathered = hot_mappings settings env (top_images settings.cache_warmup_top_n requests) [] w

  -- With a lawful cache and a JSON library that reads back what it writes, every mapping that
  -- one process gathers and stores is loaded by a process that reads the same cache within an
  -- hour; its project is safe, is no negative entry and was given by the cache for the key.
  pub warm_mappings-persisted :
      (text key project : Text)
      → (settings.cache_warmup_top_n == 0) ≡ false
      → lookup key gathered.0 ≡ some project
      → json.to_string gathered.0 ≡ some text
      → json.from_str text ≡ some gathered.0
      → w'.cache ≡ (persist_hot_entries settings env json requests w).cache
      → now_ms other w' < now_ms env gathered.1 + warmup_ttl
      → (lookup key (warm_mappings json (cache_get other warmup_cache_key w').0) ≡ some project)
        × IsHot c env w.cache key project
  unfolding persist_hot_entries warm_mappings
  warm_mappings-persisted text key project on found written read shared soon =
      let some_hot : is_empty gathered.0 ≡ false = is_empty_of key project gathered.0 found in
      let stored = rw (persist_hot_entries, on, some_hot, written) at shared in
      let value : (cache_get other warmup_cache_key w').0 ≡ some text =
        ap (λ s. (c.get (now_ms other w') warmup_cache_key s).0) stored
        ∙ (law.get-set_with_ttl (now_ms env gathered.1) (now_ms other w') warmup_cache_key
              warmup_cache_key text warmup_ttl gathered.1.cache
            ∙ ground (arith, text_eq_self warmup_cache_key, soon)) in
      (
        rw (value, warm_mappings, read) found,
        hot_mappings-IsHot settings law env (top_images settings.cache_warmup_top_n requests) w key
            project found,
      )
