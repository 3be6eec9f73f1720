-- ===== src/Discovery/Examples.antt =====
-- The theorems on discovery at a small Harbor, of which one project is a proxy cache.
use harbor_router.Common.{
  ℕ, zero, suc, ap, ◌∙◌, false, ltb, if◌then◌else◌, ◌+◌, ◌-◌, ◌*◌, ◌≡◌, refl, true, none, some,
  List, [], ◌∷◌, arith, take, drop, Text, codes, ok, text_eq, lookup, insert, contains, starts_with,
  trim,
}
use harbor_router.Validation.{is_safe_project_name}
use harbor_router.Cache.Lawful.{dict_cache-IsLawful, read_entry}
use harbor_router.Resolver.Examples.{registry, hub, world}
use harbor_router.Discovery.{
  Json, HarborProject, page, Api, page_size, collect, read_page, fetch_pages,
  fetch_proxy_cache_projects, persist_to_cache, seed_from_cache, seed_of, refresh, start,
}
use harbor_router.Discovery.Pages.{Names, fetch_proxy_cache_projects-all}
use harbor_router.Discovery.Seeds.{are_safe, start-safe, IsFaithful, seed_from_cache-persisted}

abbrev harbor_projects : List HarborProject
harbor_projects =
    record { name = hub; registry_id = some (codes "1") }
    ∷ record { name = codes "library"; registry_id = none }
    ∷ record { name = codes "../etc"; registry_id = some (codes "2") }
    ∷ []

-- The page of a number, by division of the index.
abbrev harbor : Api
harbor = record {
  get_page = λ tick number.
      page 200 [] (some (take page_size (drop (page_size * (number - 1)) harbor_projects)));
  show_status = λ status. [];
}

harbor-Serves :
    (tick n : ℕ)
    → (body : Text) × (harbor.get_page tick (n + 1)
        ≡ page 200 body (some (take page_size (drop (page_size * n) harbor_projects))))
harbor-Serves tick n = let e : n + 1 - 1 ≡ n = omega arith in ([], rw e refl)

fetch_proxy_cache_projects-all_example :
    (names : List Text) × ((fetch_proxy_cache_projects harbor 2 0).0 ≡ some (ok names))
    × Names harbor_projects names
fetch_proxy_cache_projects-all_example =
    fetch_proxy_cache_projects-all harbor harbor_projects harbor-Serves 2 0 (omega arith)
      (omega arith)

-- A library that writes a mark before each character, and another at the end of each name.
abbrev write_name : Text → Text → Text
write_name [] rest = 0 ∷ rest
write_name (c ∷ name) rest = 1 ∷ c ∷ write_name name rest

abbrev write_names : List Text → Text
write_names [] = []
write_names (name ∷ names) = write_name name (write_names names)

abbrev cons_first : ℕ → List Text → List Text
cons_first c [] = []
cons_first c (name ∷ names) = (c ∷ name) ∷ names

abbrev read_names : Text → List Text
read_names [] = []
read_names (zero ∷ text) = [] ∷ read_names text
read_names (suc mark ∷ []) = []
read_names (suc mark ∷ c ∷ text) = cons_first c (read_names text)

read-write_name : (name rest : Text) → read_names (write_name name rest) ≡ name ∷ read_names rest
read-write_name [] rest = refl
read-write_name (c ∷ name) rest = ap (cons_first c) (read-write_name name rest)

read-write : (names : List Text) → read_names (write_names names) ≡ names
read-write [] = refl
read-write (name ∷ names) =
    read-write_name name (write_names names) ∙ ap (λ ns. name ∷ ns) (read-write names)

abbrev marks : Json
marks = record {
  from_str = λ text. some (read_names text);
  to_string = λ names. some (write_names names);
}

marks-IsFaithful : IsFaithful marks
marks-IsFaithful names = (write_names names, refl, ap some (read-write names))

seed_from_cache-persisted_example :
    (seed_from_cache marks (registry 200) true (record world {
      cache = (persist_to_cache marks (registry 200) true (hub ∷ []) world).cache;
      tick = 7;
    })).projects
    ≡ hub ∷ []
unfolding is_safe_project_name contains starts_with text_eq trim
seed_from_cache-persisted_example =
    seed_from_cache-persisted marks 1000 (dict_cache-IsLawful 1000) (registry 200) (registry 200)
      (hub ∷ []) world
      (record world {
        cache = (persist_to_cache marks (registry 200) true (hub ∷ []) world).cache;
        tick = 7;
      })
      marks-IsFaithful refl refl refl (omega arith)

discoveries : Unit {0}
unfolding fetch_pages fetch_proxy_cache_projects read_page collect persist_to_cache seed_from_cache
    seed_of refresh start is_safe_project_name contains starts_with text_eq trim lookup insert
    read_entry
discoveries = tt

abbrev copies : ℕ → List HarborProject
copies zero = []
copies (suc n) = record { name = hub; registry_id = some (codes "1") } ∷ copies n

-- A Harbor whose pages are all full from some moment on, so that a round then never ends.
abbrev endless : Api
endless = record {
  get_page = λ tick number. page 200 [] (some (if ltb tick 3 then harbor_projects else copies 100));
  show_status = λ status. [];
}

endless_round :
    let (over, w) = start marks (registry 200) true endless (3 ∷ 1 ∷ 1 ∷ 1 ∷ []) world in
    (over ≡ false) × (w.projects ≡ hub ∷ [])
unfolding discoveries
endless_round = (refl, refl)

start-safe_example :
    are_safe (start marks (registry 200) true endless (3 ∷ 1 ∷ 1 ∷ 1 ∷ []) world).1.projects ≡ true
unfolding is_safe_project_name contains starts_with text_eq trim
start-safe_example = start-safe marks (registry 200) true endless (3 ∷ 1 ∷ 1 ∷ 1 ∷ []) world refl
