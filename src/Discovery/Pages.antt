-- ===== src/Discovery/Pages.antt =====
-- The loop over the pages finds every proxy cache.
use harbor_router.Common.{
  ℕ, zero, suc, ◌+◌, ◌-◌, ◌*◌, ◌%◌, ◌^◌, ◌≤◌, ◌<◌, ◌≡◌, inl, inr, refl, sym, ap, ◌∙◌, true, false,
  some, List, [], ◌∷◌, ◌++◌, append_assoc, append-nil, arith, ltb, Bool-cases, Option-cases, length,
  take, drop, length-take, Text, ok,
}
use harbor_router.Validation.{is_safe_project_name}
use harbor_router.Discovery.{
  HarborProject, page, Api, page_size, is_proxy_cache, collect, read_page, fetch_pages,
  fetch_proxy_cache_projects,
}

-- An API that serves a list of projects by pages, whatever the moment.
abbrev pub Serves : Api → List HarborProject → Type 0
Serves api projects =
    (tick n : ℕ)
    → (body : Text) × (api.get_page tick (n + 1)
        ≡ page 200 body (some (take page_size (drop (page_size * n) projects))))

-- A project with a registry, of whatever identifier, and a name that passes its check.
abbrev pub IsProxyCache : HarborProject → Type 0
IsProxyCache p = ((id : Text) × (p.registry_id ≡ some id)) × (is_safe_project_name p.name ≡ true)

-- The names of the proxy caches among the projects, in order.
pub data Names : List HarborProject → List Text → Type 0 where
  end : Names [] []
  taken :
      {p : HarborProject} {ps : List HarborProject} {names : List Text}
      → IsProxyCache p
      → Names ps names
      → Names (p ∷ ps) (p.name ∷ names)
  skipped :
      {p : HarborProject} {ps : List HarborProject} {names : List Text}
      → ¬ IsProxyCache p
      → Names ps names
      → Names (p ∷ ps) names

IsProxyCache-sound : (p : HarborProject) → is_proxy_cache p ≡ true → IsProxyCache p
IsProxyCache-sound p h = elim (Option-cases p.registry_id) [
  | inl local ↦ absurd (cc (rw local at h))
  | inr (id, remote) ↦ ((id, remote), rw remote at h)
]

IsProxyCache-complete : (p : HarborProject) → IsProxyCache p → is_proxy_cache p ≡ true
IsProxyCache-complete p ((id, remote), safe) = rw remote safe

collect-Names : (ps : List HarborProject) → Names ps (collect ps)
unfolding collect
collect-Names [] = end
collect-Names (p ∷ ps) = elim (Bool-cases (is_proxy_cache p)) [
  | inl yes_one ↦ rw yes_one (taken (IsProxyCache-sound p yes_one) (collect-Names ps))
  | inr no_one ↦
      rw no_one (skipped (λ h. cc (IsProxyCache-complete p h, no_one)) (collect-Names ps))
]

collect-append : (ps qs : List HarborProject) → collect (ps ++ qs) ≡ collect ps ++ collect qs
unfolding collect
collect-append [] qs = refl
collect-append (p ∷ ps) qs = ground (arith, collect-append ps qs)

take-drop : (n : ℕ) (ps : List HarborProject) → take n ps ++ drop n ps ≡ ps
take-drop zero ps = refl
take-drop (suc n) [] = refl
take-drop (suc n) (p ∷ ps) = ap (λ qs. p ∷ qs) (take-drop n ps)

drop-all :
    (n : ℕ) (ps : List HarborProject)
    → length (take n ps) < n
    → (drop n ps ≡ []) × (length (take n ps) ≡ length ps)
drop-all zero ps h = absurd (omega (arith, h))
drop-all (suc n) [] h = (refl, refl)
drop-all (suc n) (p ∷ ps) h = let (e, f) = drop-all n ps (omega (arith, h)) in (e, omega (arith, f))

drop_nil : (n : ℕ) → drop {A = HarborProject} n [] ≡ []
drop_nil zero = refl
drop_nil (suc n) = refl

drop-drop : (m n : ℕ) (ps : List HarborProject) → drop m (drop n ps) ≡ drop (n + m) ps
drop-drop m zero ps = let e : 0 + m ≡ m = omega arith in rw e refl
drop-drop m (suc n) [] = drop_nil m ∙ sym (drop_nil (suc n + m))
drop-drop m (suc n) (p ∷ ps) =
    let e : suc n + m ≡ suc (n + m) = omega arith in rw e (drop-drop m n ps)

length-drop : (n : ℕ) (ps : List HarborProject) → length (drop n ps) ≡ length ps - n
length-drop zero ps = omega arith
length-drop (suc n) [] = omega arith
length-drop (suc n) (p ∷ ps) = omega (arith, length-drop n ps)

take-short :
    (ps : List HarborProject) → length (take page_size ps) < page_size → take page_size ps ≡ ps
take-short ps h =
    let (gone, _) = drop-all page_size ps h in
    sym (append-nil (take page_size ps))
    ∙ ap (λ qs. take page_size ps ++ qs) (sym gone)
    ∙ take-drop page_size ps

lt_of_ltb : (m n : ℕ) → ltb m n ≡ true → m < n
lt_of_ltb m n h = ground arith

le_of_ltb : (m n : ℕ) → ltb m n ≡ false → n ≤ m
le_of_ltb m n h = ground arith

module _ (api : Api) (projects : List HarborProject) (serves : Serves api projects) where
  abbrev rest : ℕ → List HarborProject
  rest n = drop (page_size * n) projects

  rest-suc : (n : ℕ) → rest (n + 1) ≡ drop page_size (rest n)
  rest-suc n =
      let e : page_size * (n + 1) ≡ page_size * n + page_size = omega arith in
      rw e (sym (drop-drop page_size (page_size * n) projects))

  read_page-served :
      (tick n : ℕ) → read_page api (api.get_page tick (n + 1)) ≡ ok (take page_size (rest n))
  unfolding read_page
  read_page-served tick n = let (body, e) = serves tick n in rw e refl

  fetch_pages-rest :
      (fuel n : ℕ) (result : List Text) (tick : ℕ)
      → length (rest n) < page_size * fuel
      → n + fuel + 1 < 2 ^ 32
      → (fetch_pages api fuel (n + 1) result tick).0 ≡ some (ok (result ++ collect (rest n)))
  unfolding fetch_pages
  fetch_pages-rest zero n result tick h small = absurd (omega (arith, h))
  fetch_pages-rest (suc fuel) n result tick h small =
      let now = take page_size (rest n) in
      elim (Bool-cases (ltb (length now) page_size)) [
        | inl last ↦
            let short = take-short (rest n) (lt_of_ltb (length now) page_size last) in
            rw (read_page-served tick n, last, fetch_pages)
              (ap (λ qs. some (ok (result ++ collect qs))) short)
        | inr full ↦
            let next : (n + 1 + 1) % 2 ^ 32 ≡ (n + 1) + 1 = omega (arith, small) in
            let shorter : length (rest (n + 1)) < page_size * fuel = rw (rest-suc n) (
              omega (
                arith,
                length-drop page_size (rest n),
                h,
                le_of_ltb (length now) page_size full,
                length-take {0} page_size (rest n),
              )) in
            let ih =
              fetch_pages-rest fuel (n + 1) (result ++ collect now) (tick + 1) shorter
                (omega (arith, small)) in
            rw (read_page-served tick n, full, next, fetch_pages)
              (ih ∙ ap (λ names. some (ok names)) (joined n result))
      ]
    where
      joined :
          (k : ℕ) (names : List Text)
          → (names ++ collect (take page_size (rest k))) ++ collect (rest (k + 1))
            ≡ names ++ collect (rest k)
      joined k names =
          append_assoc names (collect (take page_size (rest k))) (collect (rest (k + 1)))
          ∙ ap (λ qs. names ++ (collect (take page_size (rest k)) ++ collect qs)) (rest-suc k)
          ∙ ap (λ qs. names ++ qs)
              (sym (collect-append (take page_size (rest k)) (drop page_size (rest k)))
                ∙ ap collect (take-drop page_size (rest k)))

  -- When Harbor serves a list of projects by pages of 100, fuel for one page more than are full
  -- (fewer than 2^32 - 1) is enough for the loop to end, and it finds the names of the projects
  -- that have a registry and a name that passes its check, of all of them and no others, in
  -- order.
  pub fetch_proxy_cache_projects-all :
      (fuel tick : ℕ)
      → length projects < page_size * fuel
      → fuel + 1 < 2 ^ 32
      → (names : List Text) × ((fetch_proxy_cache_projects api fuel tick).0 ≡ some (ok names))
        × Names projects names
  unfolding fetch_proxy_cache_projects
  fetch_proxy_cache_projects-all fuel tick enough small = (
    collect projects,
    fetch_pages-rest fuel 0 [] tick enough (omega (arith, small)),
    collect-Names projects,
  )
