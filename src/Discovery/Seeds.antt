-- ===== src/Discovery/Seeds.antt =====
-- The list of projects never holds an unsafe name, and a list that one process stored seeds another.
use harbor_router.Common.{
  ℕ, zero, suc, ◌+◌, ◌<◌, ◌≡◌, inl, inr, refl, ap, ◌∙◌, Bool, true, false, ◌||◌, Option, none, some,
  List, [], ◌∷◌, ◌++◌, arith, ltb, Bool-cases, Option-cases, Outcome-cases, is_empty, all, all-keep,
  keep, length, Text, text_eq_self, ok,
}
use harbor_router.Validation.{is_safe_project_name}
use harbor_router.Cache.{CacheBackend}
use harbor_router.Cache.Lawful.{IsLawful}
use harbor_router.Resolver.World.{Environment, World, now_ms, cache_get}
use harbor_router.Discovery.{
  Json, HarborProject, Api, discovery_cache_key, page_size, collect, read_page, fetch_pages,
  fetch_proxy_cache_projects, persist_to_cache, seed_of, seed_from_cache, refresh, start,
}

abbrev pub are_safe : List Text → Bool
are_safe names = all is_safe_project_name names

all-append :
    (p : Text → Bool) (xs ys : List Text)
    → all p xs ≡ true
    → all p ys ≡ true
    → all p (xs ++ ys) ≡ true
all-append p [] ys h hs = hs
all-append p (x ∷ xs) ys h hs = ground (arith, all-append p xs ys)

collect-safe : (ps : List HarborProject) → are_safe (collect ps) ≡ true
unfolding collect
collect-safe [] = refl
collect-safe (p ∷ ps) = ground (arith, collect-safe ps)

fetch_pages-safe :
    (api : Api) (fuel number : ℕ) (result : List Text) (tick : ℕ) (projects : List Text)
    → are_safe result ≡ true
    → (fetch_pages api fuel number result tick).0 ≡ some (ok projects)
    → are_safe projects ≡ true
unfolding fetch_pages
fetch_pages-safe api zero number result tick projects h e = absurd (ground arith)
fetch_pages-safe api (suc fuel) number result tick projects h e =
    elim (Outcome-cases (read_page api (api.get_page tick number))) [
      | inr (m, bad) ↦ absurd (cc (rw (bad, fetch_pages) at e))
      | inl (ps, good) ↦
          let longer = all-append is_safe_project_name result (collect ps) h (collect-safe ps) in
          elim (Bool-cases (ltb (length ps) page_size)) [
            | inl last ↦
                let same : result ++ collect ps ≡ projects =
                  ground (arith, rw (good, last, fetch_pages) at e) in
                rw (← same) longer
            | inr full ↦
                fetch_pages-safe api fuel _ (result ++ collect ps) (tick + 1) projects longer
                  (rw (good, full, fetch_pages) at e)
          ]
    ]

seed_of-safe :
    (json : Json) (cached : Option Text) (names : List Text)
    → seed_of json cached ≡ some names
    → are_safe names ≡ true
unfolding seed_of
seed_of-safe json none names h = absurd (ground arith)
seed_of-safe json (some text) names h = elim (Option-cases (json.from_str text)) [
  | inl bad ↦ absurd (cc (rw (bad, seed_of) at h))
  | inr (projects, e) ↦
      let safe = keep is_safe_project_name projects in
      elim (Bool-cases (is_empty projects || is_empty safe)) [
        | inl nothing ↦ absurd (cc (rw (e, nothing, seed_of) at h))
        | inr some_name ↦
            let same : safe ≡ names = ground (arith, rw (e, some_name, seed_of) at h) in
            rw (← same) (all-keep {0} is_safe_project_name projects)
      ]
]

keep_id : (p : Text → Bool) (xs : List Text) → all p xs ≡ true → keep p xs ≡ xs
keep_id p [] h = refl
keep_id p (x ∷ xs) h = ground (arith, keep_id p xs)

module _ {c : CacheBackend} (json : Json) (env : Environment) (shared : Bool) where
  seed_from_cache-safe :
      (w : World c)
      → are_safe w.projects ≡ true
      → are_safe (seed_from_cache json env shared w).projects ≡ true
  unfolding seed_from_cache
  seed_from_cache-safe w h = elim (Bool-cases shared) [
    | inr alone ↦ rw (alone, seed_from_cache) h
    | inl both ↦
        let cached = (cache_get env discovery_cache_key w).0 in
        elim (Option-cases (seed_of json cached)) [
          | inl kept ↦ rw (both, kept, seed_from_cache) h
          | inr (names, e) ↦ rw (both, e, seed_from_cache) (seed_of-safe json cached names e)
        ]
  ]

  refresh-safe :
      (api : Api) (fuel : ℕ) (w : World c)
      → are_safe w.projects ≡ true
      → are_safe (refresh json env shared api fuel w).1.projects ≡ true
  unfolding refresh fetch_proxy_cache_projects
  refresh-safe api fuel w h = elim (Option-cases (fetch_pages api fuel 1 [] w.tick).0) [
    | inl out ↦ rw (out, refresh) h
    | inr (o, got) ↦ elim (Outcome-cases o) [
      | inr (m, bad) ↦ rw (got, bad, refresh) h
      | inl (names, good) ↦
          rw (got, good, refresh)
            (fetch_pages-safe api fuel 1 [] w.tick names refl (got ∙ ap some good))
    ]
  ]

  -- If the projects have safe names when the discovery starts, they have after the seeding and
  -- whenever it has done any number of rounds and sent any number of requests of the next one,
  -- whether or not that one ever ends, whatever the shared cache holds and the API answers.
  pub start-safe :
      (api : Api) (fuels : List ℕ) (w : World c)
      → are_safe w.projects ≡ true
      → are_safe (start json env shared api fuels w).1.projects ≡ true
  unfolding start
  start-safe api [] w h = seed_from_cache-safe w h
  start-safe api (fuel ∷ fuels) w h =
      let before = start json env shared api fuels w in
      let safe = start-safe api fuels w h in
      elim (Bool-cases before.0) [
        | inl over ↦ rw (over, start) (refresh-safe api fuel before.1 safe)
        | inr busy ↦ rw (busy, start) safe
      ]

-- What the JSON library promises: a list that was written is read back.
abbrev pub IsFaithful : Json → Type 0
IsFaithful json =
    (names : List Text)
    → (text : Text) × (json.to_string names ≡ some text) × (json.from_str text ≡ some names)

persisted-get :
    {c : CacheBackend} (json : Json) (default_ttl : ℕ) (law : IsLawful c default_ttl)
    (here there : Environment) (names : List Text) (w v : World c) (text : Text)
    → json.to_string names ≡ some text
    → v.cache ≡ (persist_to_cache json here true names w).cache
    → now_ms there v < now_ms here w + default_ttl
    → (cache_get there discovery_cache_key v).0 ≡ some text
unfolding persist_to_cache
persisted-get {c} json default_ttl law here there names w v text wrote same soon =
    let stored : v.cache ≡ c.set (now_ms here w) discovery_cache_key text w.cache =
      same ∙ rw (wrote, persist_to_cache) refl in
    let key = discovery_cache_key in
    ap (λ s. (c.get (now_ms there v) key s).0)
      (stored ∙ law.set_default (now_ms here w) key text w.cache)
    ∙ law.get-set_with_ttl (now_ms here w) (now_ms there v) key key text default_ttl w.cache
    ∙ rw (text_eq_self key) (ground (arith, soon))

-- With a lawful cache and a JSON library that reads back what it writes, a list of safe names
-- that one process stores, not an empty one, becomes the list of a process that is seeded from
-- the same cache within the lifetime of the entry.
pub seed_from_cache-persisted :
    {c : CacheBackend} (json : Json) (default_ttl : ℕ) (law : IsLawful c default_ttl)
    (here there : Environment) (names : List Text) (w v : World c)
    → IsFaithful json
    → are_safe names ≡ true
    → is_empty names ≡ false
    → v.cache ≡ (persist_to_cache json here true names w).cache
    → now_ms there v < now_ms here w + default_ttl
    → (seed_from_cache json there true v).projects ≡ names
unfolding persist_to_cache seed_from_cache seed_of
seed_from_cache-persisted json default_ttl law here there names w v faithful safe some_name same
      soon =
    let (text, wrote, reads) = faithful names in
    let stored = persisted-get json default_ttl law here there names w v text wrote same soon in
    let kept = keep_id is_safe_project_name names safe in
    rw (stored, seed_from_cache) (rw reads (rw kept (rw some_name refl)))
