-- ===== src/Resolver/Warmup/Entries.antt =====
-- What the warming can put into a lawful cache.
use mathlib.Core.List.{Memᴰ}
use harbor_router.Common.{
  ℕ, ◌+◌, ◌≡◌, ◌⊎◌, inl, inr, refl, ap, ◌∙◌, true, Option, none, some, [], ◌∷◌, ltb, Bool-cases,
  before, Text, text_eq, Dict,
}
use harbor_router.Validation.{is_safe_project_name}
use harbor_router.Cache.{CacheBackend}
use harbor_router.Cache.Lawful.{IsLawful}
use harbor_router.Resolver.World.{
  Environment, Settings, World, now_ms, now_epoch_secs, cache_get, cache_set, cache_set_with_ttl,
}
use harbor_router.Resolver.Manifest.{img_key}
use harbor_router.Resolver.Warmup.{
  MapJson, warmup_cache_key, warm_value, warm_entry, warm_entries, warm_mappings,
  warm_cache_from_redis,
}

-- What a key gives at a later time, compared with before: the same, nothing, or a project of the
-- mappings with a safe name, as it is or with its time.
abbrev pub IsWarm : Settings → Dict Text → ℕ → Option Text → Option Text → Type 0
IsWarm settings mappings now old new =
    (new ≡ old)
    ⊎ (new ≡ none)
    ⊎ ((key : Text) × (project : Text) × Memᴰ (key, project) mappings
        × (is_safe_project_name project ≡ true)
        × ((new ≡ some project) ⊎ (new ≡ some (warm_value settings now project))))

module _ {c : CacheBackend} (settings : Settings) (law : IsLawful c settings.cache_ttl)
    (env : Environment) where
  set-cases :
      (later : ℕ) (k j v : Text) (ttl : ℕ) (w : World c)
      → ((c.get later j (cache_set_with_ttl env k v ttl w).cache).0 ≡ (c.get later j w.cache).0)
        ⊎ ((c.get later j (cache_set_with_ttl env k v ttl w).cache).0 ≡ none)
        ⊎ ((c.get later j (cache_set_with_ttl env k v ttl w).cache).0 ≡ some v)
  set-cases later k j v ttl w =
      let e = law.get-set_with_ttl (now_ms env w) later k j v ttl w.cache in
      elim (Bool-cases (text_eq k j)) [
        | inr other ↦ inl (e ∙ rw other refl)
        | inl same ↦ elim (Bool-cases (ltb later (now_ms env w + ttl))) [
          | inl soon ↦ inr (inr (e ∙ rw (same, soon) refl))
          | inr over ↦ inr (inl (e ∙ rw (same, over) refl))
        ]
      ]

  two_writes :
      (now later : ℕ) (j key project : Text) (w : World c)
      → is_safe_project_name project ≡ true
      → IsWarm settings
          ((key, project) ∷ [])
          now
          (c.get later j w.cache).0
          (c.get later j
            (cache_set env (img_key (before b':' key)) project (
              cache_set_with_ttl env key
                (warm_value settings now project)
                (settings.cache_ttl + settings.stale_while_revalidate)
                w)).cache).0
  two_writes now later j key project w safe =
      let ttl = settings.cache_ttl + settings.stale_while_revalidate in
      let mid = cache_set_with_ttl env key (warm_value settings now project) ttl w in
      let img = img_key (before b':' key) in
      let default =
        ap (λ s. (c.get later j s).0) (law.set_default (now_ms env mid) img project mid.cache) in
      elim (set-cases later img j project settings.cache_ttl mid) [
        | inr (inr raw) ↦ inr (inr (key, project, Memᴰ.head refl, safe, inl (default ∙ raw)))
        | inr (inl gone) ↦ inr (inl (default ∙ gone))
        | inl same ↦ elim (set-cases later key j (warm_value settings now project) ttl w) [
          | inl same_too ↦ inl (default ∙ same ∙ same_too)
          | inr (inl gone) ↦ inr (inl (default ∙ same ∙ gone))
          | inr (inr coded) ↦
              inr (inr (key, project, Memᴰ.head refl, safe, inr (default ∙ same ∙ coded)))
        ]
      ]

  warm_entry-IsWarm :
      (now later : ℕ) (j key project : Text) (w : World c)
      → IsWarm settings
          ((key, project) ∷ [])
          now
          (c.get later j w.cache).0
          (c.get later j (warm_entry settings env now (key, project) w).cache).0
  unfolding warm_entry
  warm_entry-IsWarm now later j key project w = elim (Bool-cases (is_safe_project_name project)) [
    | inr bad ↦ rw (bad, warm_entry) (inl refl)
    | inl safe ↦ rw (safe, warm_entry) (two_writes now later j key project w safe)
  ]

  IsWarm-trans :
      (now : ℕ) (ms : Dict Text) (old mid new : Option Text)
      → IsWarm settings ms now old mid
      → IsWarm settings ms now mid new
      → IsWarm settings ms now old new
  IsWarm-trans now ms old mid new (inl same) (inl same_too) = inl (same_too ∙ same)
  IsWarm-trans now ms old mid new (inr (inl gone)) (inl same) = inr (inl (same ∙ gone))
  IsWarm-trans now ms old mid new (inr (inr (k, p, mem, safe, inl raw))) (inl same) =
      inr (inr (k, p, mem, safe, inl (same ∙ raw)))
  IsWarm-trans now ms old mid new (inr (inr (k, p, mem, safe, inr coded))) (inl same) =
      inr (inr (k, p, mem, safe, inr (same ∙ coded)))
  IsWarm-trans now ms old mid new first (inr changed) = inr changed

  weaken :
      (now : ℕ) (ms ns : Dict Text) (old new : Option Text)
      → ((e : Text × Text) → Memᴰ e ms → Memᴰ e ns)
      → IsWarm settings ms now old new
      → IsWarm settings ns now old new
  weaken now ms ns old new more (inl same) = inl same
  weaken now ms ns old new more (inr (inl gone)) = inr (inl gone)
  weaken now ms ns old new more (inr (inr (k, p, mem, safe, v))) =
      inr (inr (k, p, more (k, p) mem, safe, v))

  mem-one : (m : Text × Text) (ms : Dict Text) (e : Text × Text) → Memᴰ e (m ∷ []) → Memᴰ e (m ∷ ms)
  mem-one m ms e (Memᴰ.head same) = Memᴰ.head same
  mem-one m ms e (Memᴰ.tail t) = elim t [ ]

  warm_entries-IsWarm :
      (now later : ℕ) (j : Text) (mappings : Dict Text) (w : World c)
      → IsWarm settings mappings now
          (c.get later j w.cache).0
          (c.get later j (warm_entries settings env now mappings w).cache).0
  unfolding warm_entries
  warm_entries-IsWarm now later j [] w = inl refl
  warm_entries-IsWarm now later j ((key, project) ∷ mappings) w =
      let mid = warm_entry settings env now (key, project) w in
      IsWarm-trans now ((key, project) ∷ mappings) _ (c.get later j mid.cache).0 _
        (weaken now ((key, project) ∷ []) ((key, project) ∷ mappings) _ _
          (mem-one (key, project) mappings) (warm_entry-IsWarm now later j key project w))
        (weaken now mappings ((key, project) ∷ mappings) _ _ (λ e m. Memᴰ.tail m)
          (warm_entries-IsWarm now later j mappings mid))

  -- In a lawful cache, what the warming changes at any key, whatever the stored mappings are,
  -- is only that the key gives nothing at some later time or the name of a project of the
  -- mappings that is safe, plain or with the time of the warming.
  pub warm_cache_from_redis-IsWarm :
      (json : MapJson) (later : ℕ) (j : Text) (w : World c)
      → let (cached, w') = cache_get env warmup_cache_key w in
        IsWarm settings
          (warm_mappings json cached)
          (now_epoch_secs env w')
          (c.get later j w.cache).0
          (c.get later j (warm_cache_from_redis settings env json w).cache).0
  unfolding warm_cache_from_redis
  warm_cache_from_redis-IsWarm json later j w =
      let (cached, w') = cache_get env warmup_cache_key w in
      rw (← ap (λ s. (c.get later j s).0) (law.get_pure (now_ms env w) warmup_cache_key w.cache))
        (warm_entries-IsWarm (now_epoch_secs env w') later j (warm_mappings json cached) w')
