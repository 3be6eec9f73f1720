-- ===== src/Resolver/Examples.antt =====
-- The resolver's theorems at a small registry: "hub" answers 404 or 200 to every request.
use mathlib.Core.List.{Memᴰ}
use harbor_router.Common.{
  ok, ℕ, ◌+◌, ◌≤◌, ◌≡◌, ◌⊎◌, ◌↔◌, refl, true, List, [], ◌∷◌, All, arith, contains, starts_with,
  Text, codes, length, text_eq, trim, lookup, insert, err, split,
}
use harbor_router.Validation.{is_safe_project_name}
use harbor_router.Breaker.{new, is_available, record_success, record_failure, project_health}
use harbor_router.Cache.{CacheBackend}
use harbor_router.Cache.Lawful.{dict_cache}
use harbor_router.Resolver.Status.{is_all_projects_non_200, not_found_tail}
use harbor_router.Resolver.Accept.{content_type_matches}
use harbor_router.Resolver.Accept.MediaTypes.{IsMediaType}
use harbor_router.Resolver.Accept.Laws.{Admits, content_type_matches_iff}
use harbor_router.Resolver.World.{
  Response, replied, Probe, answered, Turn, completed, Environment, leader, Settings, World,
  of_reply,
}
use harbor_router.Resolver.Fetch.{fetch_manifest_with_retry}
use harbor_router.Resolver.Fetch.Retries.{IsRetried, fetch_manifest_with_retry-IsRetried}
use harbor_router.Resolver.Fanout.{
  fan_loop, available_projects, probe_result, parallel_lookup, not_found_error, outcome_of_end,
  is_accepted, observe,
}
use harbor_router.Resolver.Fanout.Outcomes.{Had, IsMiss}
use harbor_router.Resolver.Fanout.Lookup.{futures, turns}
use harbor_router.Resolver.Fanout.Finds.{parallel_lookup-finds}
use harbor_router.Resolver.Fanout.Verdicts.{
  IsBrought, parallel_lookup-IsBrought, parallel_lookup-negative, parallel_lookup-misses,
}

abbrev pub backend : CacheBackend
backend = dict_cache 1000

abbrev pub settings : Settings
settings = record {
  harbor_url = codes "http://harbor";
  service_auth = codes "Basic x";
  max_fanout = 5;
  negative_cache_ttl = 60;
  cache_ttl = 1000;
  stale_while_revalidate = 0;
  retry_max_attempts = 3;
  retry_base_delay = 100;
  cache_warmup_top_n = 10;
}

abbrev pub hub : Text
hub = codes "hub"

abbrev pub response : ℕ → Response
response status = record { project = hub; status = status; headers = []; body = [] }

-- Each future completes in its turn, with the same answer.
abbrev pub complete_all : ℕ → List Text → List Turn
complete_all status [] = []
complete_all status (p ∷ ps) =
    completed p (answered (replied status [] [])) ∷ complete_all status ps

abbrev pub registry : ℕ → Environment
registry status = record {
  time = λ tick. 5000 + tick;
  reply = λ tick request. replied status [] [];
  stream = λ tick request. ok (status, [], codes "layer");
  complete = λ tick futures. complete_all status futures;
  join = λ tick key. leader;
}

abbrev pub world : World backend
world = record {
  cache = [];
  breaker = new 3 30;
  projects = hub ∷ [];
  tick = 0;
  slept = [];
  spawned = [];
}

pub complete_all-IsExecutor :
    (status : ℕ) (ps : List Text) (project : Text) (probe : Probe)
    → Memᴰ (completed project probe) (complete_all status ps)
    → Memᴰ project ps
complete_all-IsExecutor status [] project probe m = elim m [ ]
complete_all-IsExecutor status (p ∷ ps) project probe (Memᴰ.head e) = Memᴰ.head (ground arith)
complete_all-IsExecutor status (p ∷ ps) project probe (Memᴰ.tail m) =
    Memᴰ.tail (complete_all-IsExecutor status ps project probe m)

lookups : Unit {0}
unfolding new parallel_lookup fan_loop available_projects is_available probe_result of_reply
    is_safe_project_name contains starts_with text_eq trim lookup insert is_accepted outcome_of_end
    observe record_success record_failure project_health is_all_projects_non_200
lookups = tt

parallel_lookup-IsBrought_example :
    IsBrought settings (registry 200) world (response 200)
    × (length (futures settings (registry 200) world) ≤ 5)
unfolding lookups
parallel_lookup-IsBrought_example =
    parallel_lookup-IsBrought settings (registry 200) (codes "nginx") (codes "latest") [] world
      (response 200) (λ tick ps project probe m. complete_all-IsExecutor 200 ps project probe m)
      refl

parallel_lookup-negative_example :
    All IsMiss (turns settings (registry 404) world)
    ⊎ ((f : Text) × Had (turns settings (registry 404) world) (err f)
        × (contains not_found_tail f ≡ true))
unfolding lookups
parallel_lookup-negative_example =
    parallel_lookup-negative settings (registry 404) (codes "nginx") (codes "latest") [] world
      (not_found_error (codes "nginx") (codes "latest")) refl refl

parallel_lookup-misses_example :
    ((parallel_lookup settings (registry 404) (codes "nginx") (codes "latest") [] world).0
      ≡ err (not_found_error (codes "nginx") (codes "latest")))
    × (is_all_projects_non_200 (not_found_error (codes "nginx") (codes "latest")) ≡ true)
unfolding lookups
parallel_lookup-misses_example =
    parallel_lookup-misses settings (registry 404) (codes "nginx") (codes "latest") [] world refl
      ((response 404, refl, λ e. absurd (ground arith)), tt)

fetch_manifest_with_retry-IsRetried_example :
    (k : ℕ) × IsRetried settings
      (registry 503)
      hub
      (codes "nginx")
      (codes "latest")
      []
      3
      0
      k
      world
      (fetch_manifest_with_retry settings
        (registry 503)
        hub
        (codes "nginx")
        (codes "latest")
        []
        world)
unfolding lookups
fetch_manifest_with_retry-IsRetried_example =
    fetch_manifest_with_retry-IsRetried settings (registry 503) hub (codes "nginx") (codes "latest")
      [] world refl

content_type_matches_iff_example :
    (content_type_matches (codes "text/plain; q=1") (codes "image/*, text/*" ∷ []) ≡ true) ↔ (
      (header : Text) × (range : Text) × (ct : Text) × (av : Text) × Memᴰ header
        (codes "image/*, text/*" ∷ [])
      × Memᴰ range (split b',' header)
      × IsMediaType (codes "text/plain; q=1") ct
      × IsMediaType range av
      × Admits ct av)
content_type_matches_iff_example =
    content_type_matches_iff (codes "text/plain; q=1") (codes "image/*, text/*" ∷ [])

parallel_lookup-finds_example :
    (best : Response) × ((parallel_lookup settings
        (registry 200)
        (codes "nginx")
        (codes "latest")
        []
        world).0
      ≡ ok best)
unfolding lookups
parallel_lookup-finds_example =
    parallel_lookup-finds settings (registry 200) (codes "nginx") (codes "latest") [] world
      (response 200) (λ tick ps project probe m. complete_all-IsExecutor 200 ps project probe m)
      (hub, answered (replied 200 [] []), Memᴰ.head refl, refl) refl
