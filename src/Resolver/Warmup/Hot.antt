-- ===== src/Resolver/Warmup/Hot.antt =====
-- What the persisting of popular images writes.
use mathlib.Core.Path.{subst}
use harbor_router.Common.{
  ℕ, ◌≡◌, inl, inr, refl, sym, ◌∙◌, true, false, not, ◌&&◌, Option, none, some, List, [], ◌∷◌,
  arith, if◌then◌else◌, Bool-cases, Text, text_eq, text_eq_iff, Dict, lookup, insert, lookup-insert,
}
use harbor_router.Validation.{is_safe_project_name}
use harbor_router.Cache.{CacheBackend}
use harbor_router.Cache.Lawful.{IsLawful}
use harbor_router.Resolver.CacheValue.{negative_cache_sentinel, decode_cache_value}
use harbor_router.Resolver.World.{Environment, Settings, World, now_ms, cache_get}
use harbor_router.Resolver.Warmup.{hot_mappings}

-- A mapping that the cache gave at some moment: its project is safe and no negative entry.
abbrev pub IsHot : (c : CacheBackend) → Environment → c.State → Text → Text → Type 0
IsHot c env s key project =
    (is_safe_project_name project ≡ true)
    × (text_eq project negative_cache_sentinel ≡ false)
    × ((tick : ℕ) × (value : Text) × ((c.get (env.time tick) key s).0 ≡ some value)
        × ((decode_cache_value value).0 ≡ project))

module _ {c : CacheBackend} (settings : Settings) (law : IsLawful c settings.cache_ttl)
    (env : Environment) where
  AreHot : c.State → Dict Text → Type 0
  AreHot s mappings =
      (key project : Text) → lookup key mappings ≡ some project → IsHot c env s key project

  AreHot-insert :
      (s : c.State) (key project : Text) (mappings : Dict Text)
      → AreHot s mappings
      → IsHot c env s key project
      → AreHot s (insert key project mappings)
  unfolding AreHot
  AreHot-insert s key project mappings hs h k p found = elim (Bool-cases (text_eq key k)) [
    | inr other ↦ hs k p (sym (lookup-insert key k project mappings ∙ rw other refl) ∙ found)
    | inl same ↦
        let e : key ≡ k = (text_eq_iff key k).0 same in
        let f : some project ≡ some p =
          sym (lookup-insert key k project mappings ∙ rw same refl) ∙ found in
        let g : project ≡ p = ground (arith, f) in rw (← e) (rw (← g) h)
  ]

  -- The mapping that one image adds.
  abbrev add_hot : Text → Option Text → Dict Text → Dict Text
  add_hot key cached mappings = elim cached as (λ x. Dict Text) [
    | none ↦ mappings
    | some value ↦
        let project = (decode_cache_value value).0 in
        if not (text_eq project negative_cache_sentinel) && is_safe_project_name project
        then insert key project mappings
        else mappings
  ]

  AreHot-add_hot :
      (s : c.State) (tick : ℕ) (key : Text) (cached : Option Text) (mappings : Dict Text)
      → (c.get (env.time tick) key s).0 ≡ cached
      → AreHot s mappings
      → AreHot s (add_hot key cached mappings)
  AreHot-add_hot s tick key none mappings got hs = hs
  AreHot-add_hot s tick key (some value) mappings got hs =
      let project = (decode_cache_value value).0 in
      elim (Bool-cases
        (not (text_eq project negative_cache_sentinel) && is_safe_project_name project)) [
          | inr skip ↦ rw skip hs
          | inl keep ↦ rw keep (
              AreHot-insert s key project mappings hs
                (ground (arith, keep), ground (arith, keep), (tick, value, got, refl)))
        ]

  hot_mappings-AreHot :
      (images : List (Text × ℕ)) (mappings : Dict Text) (w : World c)
      → AreHot w.cache mappings
      → AreHot w.cache (hot_mappings settings env images mappings w).0
  unfolding hot_mappings
  hot_mappings-AreHot [] mappings w hs = hs
  hot_mappings-AreHot ((key, count) ∷ images) mappings w hs =
      let (cached, w') = cache_get env key w in
      let same : w'.cache ≡ w.cache = law.get_pure (now_ms env w) key w.cache in
      let more = AreHot-add_hot w.cache w.tick key cached mappings refl hs in
      subst (λ s. AreHot s (hot_mappings settings env images (add_hot key cached mappings) w').0)
        same
        (hot_mappings-AreHot images (add_hot key cached mappings) w'
          (subst (λ s. AreHot s (add_hot key cached mappings)) (sym same) more))

  -- Every mapping that is gathered from a lawful cache to be stored for other processes has a
  -- safe project that is no negative entry, and that the cache gave for the key at some moment.
  pub hot_mappings-IsHot :
      (images : List (Text × ℕ)) (w : World c) (key project : Text)
      → lookup key (hot_mappings settings env images [] w).0 ≡ some project
      → IsHot c env w.cache key project
  unfolding AreHot lookup
  hot_mappings-IsHot images w key project found =
      hot_mappings-AreHot images [] w (λ k p none_found. absurd (cc none_found)) key project found
