-- ===== src/Discovery.antt =====
-- src/discovery.rs: which projects of Harbor are proxy caches. Harbor's API and the library that
-- reads and writes JSON are parameters. The projects and the shared cache are those of the
-- resolver's `World`.
pub mod Pages
pub mod Seeds
mod Examples
use harbor_router.Common.{
  ℕ, zero, suc, ◌+◌, ◌%◌, ◌^◌, ◌++◌, Bool, true, false, not, ◌&&◌, ◌||◌, Option, none, some, List,
  [], ◌∷◌, ltb, ◌==◌, if◌then◌else◌, is_empty, keep, length, Text, codes, Outcome, ok, err,
}
use harbor_router.Validation.{is_safe_project_name}
use harbor_router.Cache.{CacheBackend}
use harbor_router.Resolver.Status.{within}
use harbor_router.Resolver.World.{Environment, World, cache_get, cache_set}

-- `serde_json` on lists of names: `from_str` and `to_string`.
pub record Json : Type 0 where
  pub from_str : Text → Option (List Text)
  pub to_string : List Text → Option Text

-- The identifier of the registry is a JSON value, of which only its presence matters.
pub record HarborProject : Type 0 where
  pub name : Text
  pub registry_id : Option Text

-- The answer to the request for a page: none, a status with a body, and for a status of success the
-- projects, or `none` if the body is not a list of them.
pub data PageReply : Type 0 where
  unsent : PageReply
  page : ℕ → Text → Option (List HarborProject) → PageReply

pub record Api : Type 0 where
  pub get_page : ℕ → ℕ → PageReply  -- at a moment, the page of a number
  pub show_status : ℕ → Text

abbrev pub discovery_cache_key : Text
discovery_cache_key = codes "discovery:projects"

abbrev pub page_size : ℕ
page_size = 100

abbrev pub is_proxy_cache : HarborProject → Bool
is_proxy_cache p = elim p.registry_id [ none ↦ false | some id ↦ is_safe_project_name p.name ]

-- The names that a page adds to the result.
unfoldable pub collect : List HarborProject → List Text
collect [] = []
collect (p ∷ ps) = let rest = collect ps in if is_proxy_cache p then p.name ∷ rest else rest

abbrev pub auth_error : Text → Text
auth_error status =
    codes "harbor API auth failed (status "
    ++ (status ++ codes "): check HARBOR_USERNAME/HARBOR_PASSWORD")

-- The projects of one answer, or why there are none.
unfoldable pub read_page : Api → PageReply → Outcome (List HarborProject)
read_page api unsent = err (codes "execute discovery request")
read_page api (page status body projects) =
    if status == 401 || status == 403
    then err (auth_error (api.show_status status))
    else if not (within 200 299 status)
    then err (codes "unexpected status " ++ (api.show_status status ++ (codes ": " ++ body)))
    else elim projects [ none ↦ err (codes "unmarshal projects response") | some ps ↦ ok ps ]

module _ (api : Api) where
  -- The loop over the pages, on fuel; `none` when the fuel is out. The number of a page is a u32, in
  -- a build without overflow checks. The second result is the moment after the last answer.
  unfoldable pub fetch_pages : (fuel number : ℕ) → List Text → ℕ → Option (Outcome (List Text)) × ℕ
  fetch_pages zero number result tick = (none, tick)
  fetch_pages (suc fuel) number result tick = elim (read_page api (api.get_page tick number)) [
    | err e ↦ (some (err e), tick + 1)
    | ok ps ↦
        let rest = fetch_pages fuel ((number + 1) % 2 ^ 32) (result ++ collect ps) (tick + 1) in
        if ltb (length ps) page_size then (some (ok (result ++ collect ps)), tick + 1) else rest
  ]

  unfoldable pub fetch_proxy_cache_projects : (fuel tick : ℕ) → Option (Outcome (List Text)) × ℕ
  fetch_proxy_cache_projects fuel tick = fetch_pages fuel 1 [] tick

-- What a cached list gives: `none` leaves the projects as they are.
unfoldable pub seed_of : Json → Option Text → Option (List Text)
seed_of json none = none
seed_of json (some text) = elim (json.from_str text) [
  | none ↦ none
  | some projects ↦
      let safe = keep is_safe_project_name projects in
      if is_empty projects || is_empty safe then none else some safe
]

module _ {c : CacheBackend} (json : Json) (env : Environment) (shared : Bool) where
  unfoldable pub persist_to_cache : List Text → World c → World c
  persist_to_cache projects w =
      let written : World c = elim (json.to_string projects) [
        | none ↦ w
        | some text ↦ cache_set env discovery_cache_key text w
      ] in
      if shared then written else w

  unfoldable pub seed_from_cache : World c → World c
  seed_from_cache w =
      let (cached, w') = cache_get env discovery_cache_key w in
      let seeded : World c = elim (seed_of json cached) [
        | none ↦ w'
        | some safe ↦ record w' { projects = safe }
      ] in
      if shared then seeded else w

  -- Whether the round is over, and the world. A round whose fuel is out has sent that many requests
  -- and is still reading pages; it stores nothing before it is over.
  unfoldable pub refresh : (api : Api) (fuel : ℕ) → World c → Bool × World c
  refresh api fuel w =
      let (fetched, tick) = fetch_proxy_cache_projects api fuel w.tick in
      let w' = record w { tick = tick } in
      elim fetched [
        | none ↦ (false, w')
        | some (err e) ↦ (true, w')
        | some (ok projects) ↦ (true, record (persist_to_cache projects w') { projects = projects })
      ]

  -- `start` after so many rounds of its loop, each with a fuel for the pages, the last one first. No
  -- round begins before the one before it is over.
  unfoldable pub start : (api : Api) → (fuels : List ℕ) → World c → Bool × World c
  start api [] w = (true, seed_from_cache w)
  start api (fuel ∷ fuels) w =
      let (over, w') = start api fuels w in if over then refresh api fuel w' else (false, w')
