-- ===== src/Resolver/Scenarios.antt =====
-- The theorems on resolved manifests and flights at concrete calls, and runs of them.
use harbor_router.Common.{
  ℕ, ◌+◌, ◌≡◌, refl, some, List, [], ◌∷◌, arith, Text, codes, contains, starts_with, text_eq, trim,
  lookup, insert, remove, ok, err,
}
use harbor_router.Validation.{is_safe_project_name}
use harbor_router.Breaker.{new, is_available, record_success, record_failure, project_health}
use harbor_router.Cache.Lawful.{dict_cache-IsLawful, read_entry}
use harbor_router.Resolver.Status.{is_all_projects_non_200}
use harbor_router.Resolver.World.{cache_get, cache_set, now_epoch_secs, World, of_reply}
use harbor_router.Resolver.Fanout.{
  fan_loop, available_projects, probe_result, parallel_lookup, not_found_error, outcome_of_end,
  is_accepted, observe,
}
use harbor_router.Resolver.Manifest.{
  resolve_manifest, cached_project, look_up, singleflight, remember, populate,
}
use harbor_router.Resolver.Manifest.Memory.{resolve_manifest-negative, cached_project-resolved}
use harbor_router.Resolver.Manifest.Answers.{IsGood, resolve_manifest-IsGood}
use harbor_router.Resolver.Flight.{
  outside, returned, late, send, Move, enter, answer, unlist, subscribe, look, wake, expire, cancel,
  put, act, move, moves, quiet,
}
use harbor_router.Resolver.Flight.Orderly.{IsOrderly}
use harbor_router.Resolver.Flight.Leaders.{moves-IsOrderly}
use harbor_router.Resolver.Flight.Lost.{IsLost, IsStranded, cancel-IsLost_forever}
use harbor_router.Resolver.Tags.{resolve_tags, fan_out_tags, tags_loop, tags_result}
use harbor_router.Resolver.Tags.Listed.{resolve_tags-IsGood}
use harbor_router.Resolver.Warmup.{MapJson, warmup_cache_key, warm_mappings}
use harbor_router.Resolver.Warmup.Entries.{IsWarm}
use harbor_router.Resolver.Examples.{
  backend, settings, registry, response, world, complete_all-IsExecutor,
}
use harbor_router.Resolver.Warmup.{ticked, shutdown, start_cache_warming}
use harbor_router.Resolver.Warmup.Ticks.{start_cache_warming-IsWarm}
use harbor_router.Common.{Dict, ℕ, split_once}
use harbor_router.Resolver.CacheValue.{decode_cache_value}
use harbor_router.Metrics.Popularity.{top_images, sort_counts, insert_sorted}
use harbor_router.Resolver.Warmup.{hot_mappings, persist_hot_entries}
use harbor_router.Resolver.Warmup.Hot.{IsHot}
use harbor_router.Resolver.Warmup.Stored.{warm_mappings-persisted}
use harbor_router.Resolver.Examples.{hub}

abbrev nginx : Text
nginx = codes "nginx"

abbrev latest : Text
latest = codes "latest"

abbrev after : ℕ → World backend
after status = (resolve_manifest settings (registry status) nginx latest [] world).1

resolutions : Unit {0}
unfolding new parallel_lookup fan_loop available_projects is_available probe_result of_reply
    is_safe_project_name contains starts_with text_eq trim lookup insert remove is_accepted
    outcome_of_end observe record_success record_failure project_health is_all_projects_non_200
    resolve_manifest look_up singleflight remember populate read_entry
resolutions = tt

resolve_manifest-negative_example :
    resolve_manifest settings (registry 200) nginx latest [] (after 404)
    ≡ (err (not_found_error nginx latest), record (after 404) { tick = (after 404).tick + 1 })
unfolding resolutions
resolve_manifest-negative_example =
    resolve_manifest-negative settings (dict_cache-IsLawful 1000) (registry 404) nginx latest []
      world (not_found_error nginx latest) (registry 200) [] refl refl refl (omega arith)

cached_project-resolved_example :
    (cached_project settings (registry 200) nginx latest (after 200)).0 ≡ some (codes "hub")
unfolding resolutions
cached_project-resolved_example =
    cached_project-resolved settings (dict_cache-IsLawful 1000) (registry 200) nginx latest [] world
      (response 200) (registry 200) refl refl refl (omega arith) (omega arith) (omega arith)

resolve_manifest-IsGood_example : IsGood (response 200)
unfolding resolutions
resolve_manifest-IsGood_example =
    resolve_manifest-IsGood settings (registry 200) nginx latest [] world (response 200)
      (λ tick ps project probe m. complete_all-IsExecutor 200 ps project probe m)
      (λ tick key r h. absurd (ground (arith, h))) refl

-- Two callers, the second of which joins the flight of the first.
abbrev shared : List (ℕ × Move)
shared =
    (0, enter)
    ∷ (1, enter)
    ∷ (1, subscribe)
    ∷ (1, look)
    ∷ (0, answer (ok (response 200)))
    ∷ (0, unlist)
    ∷ (1, wake)
    ∷ []

moves-IsOrderly_example : IsOrderly (moves shared quiet)
moves-IsOrderly_example = moves-IsOrderly shared

-- The second caller has the sender when the leader sends, but subscribes after that: it finds nothing.
late_subscriber :
    (moves
        ((0, enter)
          ∷ (1, enter)
          ∷ (0, answer (ok (response 200)))
          ∷ (1, subscribe)
          ∷ (1, look)
          ∷ (0, unlist)
          ∷ (1, wake)
          ∷ (1, expire)
          ∷ [])
        quiet).callers
      1
    ≡ returned 0 late
unfolding moves move act put send
late_subscriber = refl

cancel-IsLost_forever_example :
    IsLost 0 (
      moves
        ((1, enter) ∷ (1, subscribe) ∷ (1, look) ∷ (1, expire) ∷ [])
        (move (0, cancel) (moves ((0, enter) ∷ []) quiet)))
    × ((j : ℕ)
        → (move (0, cancel) (moves ((0, enter) ∷ []) quiet)).callers j ≡ outside
        → IsStranded 0 (
            (moves
                ((1, enter) ∷ (1, subscribe) ∷ (1, look) ∷ (1, expire) ∷ [])
                (move (0, cancel) (moves ((0, enter) ∷ []) quiet))).callers
              j))
unfolding moves move act put
cancel-IsLost_forever_example =
    cancel-IsLost_forever ((0, enter) ∷ [])
      ((1, enter) ∷ (1, subscribe) ∷ (1, look) ∷ (1, expire) ∷ []) 0 0 refl

resolve_tags-IsGood_example : IsGood (response 200)
unfolding resolutions resolve_tags fan_out_tags tags_loop tags_result
resolve_tags-IsGood_example =
    resolve_tags-IsGood settings (registry 200) nginx world (response 200)
      (λ tick ps project probe m. complete_all-IsExecutor 200 ps project probe m) refl

-- A library that reads every text as the same two mappings.
abbrev mappings : MapJson
mappings = record {
  from_str =
      λ text. some ((codes "nginx:latest", codes "hub") ∷ (codes "x:1", codes "../etc") ∷ []);
  to_string = λ m. some [];
}

abbrev stored : World backend
stored = cache_set (registry 200) warmup_cache_key [] world

start_cache_warming-IsWarm_example :
    IsWarm settings
      (warm_mappings mappings (cache_get (registry 200) warmup_cache_key stored).0)
      (now_epoch_secs (registry 200) (cache_get (registry 200) warmup_cache_key stored).1)
      (backend.get 5500 (codes "x:1") stored.cache).0
      (backend.get 5500
        (codes "x:1")
        (start_cache_warming settings
          (registry 200)
          mappings
          (ticked ((codes "x:1", 12) ∷ []) ∷ shutdown ∷ [])
          stored).cache).0
unfolding text_eq
start_cache_warming-IsWarm_example =
    start_cache_warming-IsWarm settings (registry 200) (dict_cache-IsLawful 1000) mappings
      (ticked ((codes "x:1", 12) ∷ []) ∷ shutdown ∷ []) 5500 (codes "x:1") stored refl

abbrev popular : Dict ℕ
popular = (codes "nginx:latest", 12) ∷ (codes "rare:1", 2) ∷ []

abbrev known : World backend
known = cache_set (registry 200) (codes "nginx:latest") hub world

abbrev nginx_mapping : MapJson
nginx_mapping = record {
  from_str = λ text. some ((codes "nginx:latest", hub) ∷ []);
  to_string = λ mappings. some (codes "{}");
}

abbrev persisted : World backend
persisted = persist_hot_entries settings (registry 200) nginx_mapping popular known

warm_mappings-persisted_example :
    (lookup
        (codes "nginx:latest")
        (warm_mappings nginx_mapping (cache_get (registry 404) warmup_cache_key persisted).0)
      ≡ some hub)
    × IsHot backend (registry 200) known.cache (codes "nginx:latest") hub
unfolding persist_hot_entries hot_mappings top_images sort_counts insert_sorted decode_cache_value
    split_once lookup insert read_entry is_safe_project_name contains starts_with text_eq trim new
warm_mappings-persisted_example =
    warm_mappings-persisted settings (dict_cache-IsLawful 1000) (registry 200) (registry 404)
      nginx_mapping popular known persisted (codes "{}") (codes "nginx:latest") hub refl refl refl
      refl refl (omega arith)
