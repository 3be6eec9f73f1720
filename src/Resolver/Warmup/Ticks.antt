-- ===== src/Resolver/Warmup/Ticks.antt =====
-- What the ticks of the warming leave alone.
use harbor_router.Common.{
  ℕ, ◌≡◌, refl, ap, ◌∙◌, inl, inr, false, List, [], ◌∷◌, ◌==◌, is_empty, Bool-cases, Option-cases,
  Text, text_eq, Dict,
}
use harbor_router.Cache.{CacheBackend}
use harbor_router.Cache.Lawful.{IsLawful}
use harbor_router.Metrics.Popularity.{top_images}
use harbor_router.Resolver.World.{Environment, Settings, World, now_ms, now_epoch_secs, cache_get}
use harbor_router.Resolver.Warmup.{
  MapJson, WarmingTurn, ticked, shutdown, warmup_cache_key, warmup_ttl, warm_mappings,
  warm_cache_from_redis, hot_mappings, persist_hot_entries, warming_loop, start_cache_warming,
}
use harbor_router.Resolver.Warmup.Entries.{IsWarm, warm_cache_from_redis-IsWarm}

module _ {c : CacheBackend} (settings : Settings) (env : Environment) {ttl : ℕ}
    (law : IsLawful c ttl) where
  hot_mappings-cache :
      (images : List (Text × ℕ)) (mappings : Dict Text) (w : World c)
      → (hot_mappings settings env images mappings w).1.cache ≡ w.cache
  unfolding hot_mappings
  hot_mappings-cache [] mappings w = refl
  hot_mappings-cache ((key, count) ∷ images) mappings w =
      let same = law.get_pure (now_ms env w) key w.cache in
      hot_mappings-cache images _ (cache_get env key w).1 ∙ same

  persist_hot_entries-other :
      (json : MapJson) (requests : Dict ℕ) (w : World c) (later : ℕ) (key : Text)
      → text_eq warmup_cache_key key ≡ false
      → (c.get later key (persist_hot_entries settings env json requests w).cache).0
        ≡ (c.get later key w.cache).0
  unfolding persist_hot_entries
  persist_hot_entries-other json requests w later key other =
      let (mappings, w') =
        hot_mappings settings env (top_images settings.cache_warmup_top_n requests) [] w in
      let read : (c.get later key w'.cache).0 ≡ (c.get later key w.cache).0 =
        ap (λ s. (c.get later key s).0)
          (hot_mappings-cache (top_images settings.cache_warmup_top_n requests) [] w) in
      elim (Bool-cases (settings.cache_warmup_top_n == 0)) [
        | inl off ↦ rw (off, persist_hot_entries) refl
        | inr on ↦ elim (Bool-cases (is_empty mappings)) [
          | inl nothing ↦ rw (persist_hot_entries, on, nothing) read
          | inr something ↦ elim (Option-cases (json.to_string mappings)) [
            | inl bad ↦ rw (persist_hot_entries, on, something, bad) read
            | inr (text, good) ↦
                rw (persist_hot_entries, on, something, good)
                  (law.get-set_with_ttl (now_ms env w') later warmup_cache_key key text warmup_ttl
                      w'.cache
                    ∙ rw other read)
          ]
        ]
      ]

  warming_loop-other :
      (json : MapJson) (turns : List WarmingTurn) (w : World c) (later : ℕ) (key : Text)
      → text_eq warmup_cache_key key ≡ false
      → (c.get later key (warming_loop settings env json turns w).cache).0
        ≡ (c.get later key w.cache).0
  unfolding warming_loop
  warming_loop-other json [] w later key other = refl
  warming_loop-other json (shutdown ∷ turns) w later key other = refl
  warming_loop-other json (ticked requests ∷ turns) w later key other =
      warming_loop-other json turns (persist_hot_entries settings env json requests w) later key
        other
      ∙ persist_hot_entries-other json requests w later key other

  -- After the warming at the start, the ticks of the loop, until the shutdown or however many there
  -- are, change what a lawful cache gives for no key but the one of the stored mappings.
  start_cache_warming-other :
      (json : MapJson) (turns : List WarmingTurn) (w : World c) (later : ℕ) (key : Text)
      → text_eq warmup_cache_key key ≡ false
      → (c.get later key (start_cache_warming settings env json turns w).cache).0
        ≡ (c.get later key (warm_cache_from_redis settings env json w).cache).0
  unfolding start_cache_warming
  start_cache_warming-other json turns w later key other =
      warming_loop-other json turns (warm_cache_from_redis settings env json w) later key other

module _ {c : CacheBackend} (settings : Settings) (env : Environment)
    (law : IsLawful c settings.cache_ttl) where
  -- In a lawful cache, what the task that warms the cache and then stores mappings at every
  -- tick changes at any key but that of the mappings, whatever they are, is only that the key
  -- gives nothing at some later time or the name of a project of the mappings that is safe,
  -- plain or with the time of the warming.
  pub start_cache_warming-IsWarm :
      (json : MapJson) (turns : List WarmingTurn) (later : ℕ) (key : Text) (w : World c)
      → text_eq warmup_cache_key key ≡ false
      → let (cached, w') = cache_get env warmup_cache_key w in
        IsWarm settings
          (warm_mappings json cached)
          (now_epoch_secs env w')
          (c.get later key w.cache).0
          (c.get later key (start_cache_warming settings env json turns w).cache).0
  start_cache_warming-IsWarm json turns later key w other =
      rw (start_cache_warming-other settings env law json turns w later key other)
        (warm_cache_from_redis-IsWarm settings law env json later key w)
