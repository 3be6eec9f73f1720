-- ===== src/Resolver/Manifest/Memory.antt =====
-- What `resolve_manifest` leaves in a lawful cache, and what later calls make of it.
use harbor_router.Common.{
  ℕ, ◌+◌, ◌^◌, ◌<◌, ◌≡◌, ◌⊎◌, inl, inr, refl, sym, ap, ◌∙◌, true, false, none, some, List, arith,
  ◌==◌, if◌then◌else◌, Bool-cases, Text, text_eq, text_eq_self, has_char, Outcome, ok, err,
}
use harbor_router.Cache.{CacheBackend}
use harbor_router.Cache.Lawful.{IsLawful}
use harbor_router.Resolver.Status.{is_all_projects_non_200}
use harbor_router.Resolver.CacheValue.{
  negative_cache_sentinel, encode_cache_value, decode_cache_value, decode-encode,
}
use harbor_router.Resolver.World.{
  Response, Environment, Settings, World, now_ms, now_epoch_secs, cache_get, cache_set,
  cache_set_with_ttl,
}
use harbor_router.Resolver.Fanout.{not_found_error}
use harbor_router.Resolver.Manifest.{
  image_key, img_key, populate, remember, resolve_manifest, cached_project,
}
use harbor_router.Resolver.Manifest.Hits.{
  flown, resolve_manifest-miss, resolve_manifest-sentinel, cached_project-value,
}

module _ {c : CacheBackend} (settings : Settings) (law : IsLawful c settings.cache_ttl)
    (env : Environment) (image reference : Text) (accept : List Text) (w : World c) where
  abbrev key : Text
  key = image_key image reference

  abbrev after : World c
  after = (resolve_manifest settings env image reference accept w).1

  abbrev landed : World c
  landed = (flown settings env image reference accept w).1

  remembers :
      (o : Outcome Response)
      → (cache_get env key w).0 ≡ none
      → (resolve_manifest settings env image reference accept w).0 ≡ o
      → after ≡ remember settings env key image o landed
  remembers o miss given =
      let e = resolve_manifest-miss settings env image reference accept w miss in
      let same : (flown settings env image reference accept w).0 ≡ o =
        sym (ap (λ p. p.0) e) ∙ given in
      ap (λ p. p.1) e ∙ ap (λ r. remember settings env key image r landed) same

  sentinel_stays :
      (e : Text) (later : ℕ)
      → (cache_get env key w).0 ≡ none
      → (resolve_manifest settings env image reference accept w).0 ≡ err e
      → is_all_projects_non_200 e ≡ true
      → later < now_ms env landed + settings.negative_cache_ttl
      → (c.get later key after.cache).0 ≡ some negative_cache_sentinel
  unfolding remember
  sentinel_stays e later miss failed neg soon =
      let written = remembers (err e) miss failed in
      rw written (
        rw neg (
          ground (
            arith,
            law.get-set_with_ttl (now_ms env landed) later key key negative_cache_sentinel
                settings.negative_cache_ttl landed.cache,
            text_eq_self key,
          )))

  -- If a manifest that is not cached is not found, then in a lawful cache, until the negative
  -- lifetime is over, the next call for it fails with "not found" and does nothing else: no
  -- request is sent and the breaker is not asked.
  pub resolve_manifest-negative :
      (e : Text) (again : Environment) (accepted : List Text)
      → (cache_get env key w).0 ≡ none
      → (resolve_manifest settings env image reference accept w).0 ≡ err e
      → is_all_projects_non_200 e ≡ true
      → now_ms again after < now_ms env landed + settings.negative_cache_ttl
      → resolve_manifest settings again image reference accepted after
        ≡ (err (not_found_error image reference), record after { tick = after.tick + 1 })
  resolve_manifest-negative e again accepted miss failed neg soon =
      let kept = sentinel_stays e (now_ms again after) miss failed neg soon in
      rw (← law.get_pure (now_ms again after) key after.cache)
        (resolve_manifest-sentinel settings again image reference accepted after kept)

  -- If a manifest that is not cached is not found, then in a lawful cache, until the negative
  -- lifetime is over, `cached_project` gives the marker "__NEGATIVE__" as the project of the
  -- image.
  pub cached_project-negative :
      (e : Text) (again : Environment)
      → (cache_get env key w).0 ≡ none
      → (resolve_manifest settings env image reference accept w).0 ≡ err e
      → is_all_projects_non_200 e ≡ true
      → now_ms again after < now_ms env landed + settings.negative_cache_ttl
      → (cached_project settings again image reference after).0 ≡ some negative_cache_sentinel
  unfolding decode_cache_value text_eq
  cached_project-negative e again miss failed neg soon =
      cached_project-value settings again image reference accept after negative_cache_sentinel
        (sentinel_stays e (now_ms again after) miss failed neg soon)

  -- The value that is stored for a project.
  abbrev stored : Text → Text
  stored project =
      if settings.stale_while_revalidate == 0
      then project
      else encode_cache_value project (now_epoch_secs env landed)

  stored_lem :
      (project : Text)
      → has_char b'|' project ≡ false
      → now_epoch_secs env landed < 2 ^ 64
      → (decode_cache_value (stored project)).0 ≡ project
  stored_lem project plain small =
      let (coded, bare) = decode-encode project (now_epoch_secs env landed) plain small in
      ground (arith, ap (λ p. p.0) coded, ap (λ p. p.0) bare)

  -- The world after the first of the two writes.
  abbrev once : Text → World c
  once project =
      if settings.stale_while_revalidate == 0
      then cache_set env key project landed
      else cache_set_with_ttl env key (encode_cache_value project (now_epoch_secs env landed))
          (settings.cache_ttl + settings.stale_while_revalidate) landed

  once-tick : (project : Text) → (once project).tick ≡ landed.tick + 1
  once-tick project = elim (Bool-cases (settings.stale_while_revalidate == 0)) [
    | inl off ↦ rw off refl
    | inr on ↦ rw on refl
  ]

  first_write :
      (project : Text) (later : ℕ)
      → later < now_ms env landed + settings.cache_ttl
      → (c.get later key (once project).cache).0 ≡ some (stored project)
  first_write project later soon = elim (Bool-cases (settings.stale_while_revalidate == 0)) [
    | inl off ↦ rw off (
        ground (
          arith,
          law.set_default (now_ms env landed) key project landed.cache,
          law.get-set_with_ttl (now_ms env landed) later key key project settings.cache_ttl
              landed.cache,
          text_eq_self key,
        ))
    | inr on ↦ rw on (
        ground (
          arith,
          law.get-set_with_ttl (now_ms env landed) later key key
              (encode_cache_value project (now_epoch_secs env landed))
              (settings.cache_ttl + settings.stale_while_revalidate) landed.cache,
          text_eq_self key,
        ))
  ]

  both_writes :
      (project : Text) (later : ℕ)
      → later < now_ms env landed + settings.cache_ttl
      → later < env.time (landed.tick + 1) + settings.cache_ttl
      → ((c.get later key (populate settings env key image project landed).cache).0 ≡ some project)
        ⊎ ((c.get later key (populate settings env key image project landed).cache).0
            ≡ some (stored project))
  unfolding populate
  both_writes project later soon soon_too =
      let s : World c = once project in
      let first = first_write project later soon in
      let second =
        ap (λ t. (c.get later key t).0)
          (law.set_default (now_ms env s) (img_key image) project s.cache)
        ∙ law.get-set_with_ttl (now_ms env s) later (img_key image) key project settings.cache_ttl
            s.cache in
      let soon_then : later < env.time s.tick + settings.cache_ttl =
        rw (once-tick project) soon_too in
      elim (Bool-cases (text_eq (img_key image) key)) [
        | inl same ↦ inl (second ∙ rw same (ground (arith, soon_then)))
        | inr other ↦ inr (second ∙ rw other first)
      ]

  -- After a manifest that was not cached is resolved, in a lawful cache, `cached_project` gives
  -- the project that answered for the same image and reference, until the lifetime of either
  -- entry is over, also where the two keys are the same; the project has no "|" and the time is
  -- below 2^64 seconds.
  pub cached_project-resolved :
      (r : Response) (again : Environment)
      → (cache_get env key w).0 ≡ none
      → (resolve_manifest settings env image reference accept w).0 ≡ ok r
      → has_char b'|' r.project ≡ false
      → now_epoch_secs env landed < 2 ^ 64
      → now_ms again after < now_ms env landed + settings.cache_ttl
      → now_ms again after < env.time (landed.tick + 1) + settings.cache_ttl
      → (cached_project settings again image reference after).0 ≡ some r.project
  unfolding remember
  cached_project-resolved r again miss given plain small soon soon_too =
      let written : after ≡ populate settings env key image r.project landed =
        remembers (ok r) miss given in
      elim (rw (← written) at (both_writes r.project (now_ms again after) soon soon_too)) [
        | inl raw ↦
            cached_project-value settings again image reference accept after r.project raw
            ∙ ap (λ p. some p.0) (decode-encode r.project 0 plain (omega arith)).1
        | inr coded ↦
            cached_project-value settings again image reference accept after (stored r.project)
              coded
            ∙ ap some (stored_lem r.project plain small)
      ]
