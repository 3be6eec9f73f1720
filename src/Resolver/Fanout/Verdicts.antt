-- ===== src/Resolver/Fanout/Verdicts.antt =====
-- When `parallel_lookup` answers with a manifest, and when with "not found".
use mathlib.Core.List.{Memᴰ}
use mathlib.Core.Path.{subst}
use native.Mathlib.Nat.{le_trans}
use harbor_router.Common.{
  ◌≤◌, ◌<◌, ◌≡◌, ◌≢◌, ◌⊎◌, inl, inr, refl, sym, ap, ◌∙◌, ◌++◌, true, false, none, List, [], ◌∷◌,
  arith, length, is_empty, All, Text, codes, contains, Outcome, ok, err,
}
use harbor_router.Common.Search.{contains-append_lacking}
use harbor_router.Validation.{is_safe_project_name}
use harbor_router.Cache.{CacheBackend}
use harbor_router.Resolver.Status.{is_all_projects_non_200, not_found_tail}
use harbor_router.Resolver.World.{Response, Turn, Environment, Settings, World, now_epoch_secs}
use harbor_router.Resolver.Fanout.{
  End, found, fallen_back, all_failed, nowhere, is_accepted, outcome_of_end, parallel_lookup,
  not_found_error,
}
use harbor_router.Resolver.Fanout.Outcomes.{Had, IsMiss, Means, fan_loop-Means}
use harbor_router.Resolver.Fanout.Lookup.{
  IsExecutor, candidates, futures, turns, length-candidates, length-candidates_projects,
  probe_result-ok, mem-available_projects, length-available_projects, end_of_lookup,
  parallel_lookup-cases,
}
use harbor_router.Resolver.Fanout.Messages.{
  none_discovered_lem, all_circuits_open_lem, not-negative, not_found_error-negative,
}

is_accepted-status :
    (accept : List Text) (r : Response) → is_accepted accept r ≡ true → r.status ≡ 200
unfolding is_accepted
is_accepted-status accept r h = ground arith

is_empty-length :
    (xs : List Text) → (is_empty xs ≡ true → length xs ≡ 0) × (is_empty xs ≡ false → 0 < length xs)
is_empty-length [] = (λ e. refl, λ e. absurd (cc))
is_empty-length (x ∷ xs) = (λ e. absurd (cc), λ e. omega arith)

pub no_futures :
    (settings : Settings) (env : Environment) {c : CacheBackend} (w : World c)
    → is_empty w.projects ≡ true
    → is_empty (futures settings env w) ≡ false
    → ⊥
no_futures settings env w empty some_future = omega (
  arith,
  (is_empty-length w.projects).0 empty,
  (is_empty-length (futures settings env w)).1 some_future,
  length-available_projects (now_epoch_secs env w) (candidates settings env w) w.breaker,
  length-candidates_projects settings env w,
)

miss-not_good :
    (ts : List Turn) (o : Outcome Response)
    → All IsMiss ts
    → Had ts o
    → (r : Response) × (o ≡ ok r) × (r.status ≢ 200)
miss-not_good [] o misses (project, probe, m, e) = elim m [ ]
miss-not_good (t ∷ ts) o (here, later) (project, probe, Memᴰ.head same, e) =
    let (r, e', bad) = subst IsMiss (sym same) here in (r, sym e ∙ e', bad)
miss-not_good (t ∷ ts) o (here, later) (project, probe, Memᴰ.tail m, e) =
    miss-not_good ts o later (project, probe, m, e)

-- A manifest that a probe brought.
pub record IsBrought (settings : Settings) (env : Environment) {c : CacheBackend} (w : World c)
    (r : Response) : Type 0 where
  pub good : r.status ≡ 200
  pub safe : is_safe_project_name r.project ≡ true
  pub asked : Memᴰ r.project (candidates settings env w)
  pub answered : Had (turns settings env w) (ok r)

module _ {c : CacheBackend} (settings : Settings) (env : Environment) (image reference : Text)
    (accept : List Text) (w : World c) where
  IsBrought-Had :
      (r : Response)
      → IsExecutor env
      → r.status ≡ 200
      → Had (turns settings env w) (ok r)
      → IsBrought settings env w r
  IsBrought-Had r fair good (project, probe, m, e) =
      let (same, safe) = probe_result-ok project probe r e in
      record {
        good = good;
        safe = rw same safe;
        asked = rw same (
            mem-available_projects _ project (candidates settings env w) w.breaker
              (fair w.tick _ project probe m));
        answered = (project, probe, m, e);
      }

  end-IsBrought :
      (end : End) (r : Response)
      → IsExecutor env
      → Means accept (turns settings env w) none none end
      → outcome_of_end image reference end ≡ ok r
      → IsBrought settings env w r
  unfolding outcome_of_end
  end-IsBrought (found x) r fair (had, a) e =
      let same : x ≡ r = ground arith in
      rw (← same) (IsBrought-Had x fair (is_accepted-status accept x a) had)
  end-IsBrought (fallen_back x) r fair (inl none_some) e = cc
  end-IsBrought (fallen_back x) r fair (inr (had, good)) e =
      let same : x ≡ r = ground arith in rw (← same) (IsBrought-Had x fair good had)
  end-IsBrought (all_failed f) r fair m e = cc
  end-IsBrought nowhere r fair m e = cc

  -- For an executor that completes only futures it was given, a lookup that succeeds gives a
  -- manifest of status 200, brought by a probe of one of the first `max_fanout` projects, whose
  -- name passes its check; and the lookup probes at most `max_fanout` projects.
  pub parallel_lookup-IsBrought :
      (r : Response)
      → IsExecutor env
      → (parallel_lookup settings env image reference accept w).0 ≡ ok r
      → IsBrought settings env w r × (length (futures settings env w) ≤ settings.max_fanout)
  parallel_lookup-IsBrought r fair e =
      let few =
        le_trans
          (length-available_projects (now_epoch_secs env w) (candidates settings env w) w.breaker)
          (length-candidates settings env w) in
      elim (parallel_lookup-cases settings env image reference accept w) [
        | inl (_, nothing) ↦ absurd (cc (e, nothing))
        | inr (inl (_, shut)) ↦ absurd (cc (e, shut))
        | inr (inr (_, _, ended)) ↦ (
          end-IsBrought (end_of_lookup settings env image reference accept w) r fair
              (fan_loop-Means env accept _ none none _) (sym ended ∙ e),
          few,
        )
      ]

  end-negative :
      (end : End) (e : Text)
      → Means accept (turns settings env w) none none end
      → outcome_of_end image reference end ≡ err e
      → is_all_projects_non_200 e ≡ true
      → All IsMiss (turns settings env w)
        ⊎ ((f : Text) × Had (turns settings env w) (err f) × (contains not_found_tail f ≡ true))
  unfolding outcome_of_end is_all_projects_non_200
  end-negative (found x) e m same neg = cc
  end-negative (fallen_back x) e m same neg = cc
  end-negative nowhere e (_, _, misses) same neg = inl misses
  end-negative (all_failed f) e (inl kept) same neg = cc
  end-negative (all_failed f) e (inr had) same neg =
      let spelled : codes "all projects failed, last error: " ++ f ≡ e = cc in
      inr (
        f,
        had,
        sym (
              contains-append_lacking b'n' (codes "ot found in any proxy-cache project")
                (codes "all projects failed, last error: ") f refl)
            ∙ ap (contains not_found_tail) spelled
            ∙ neg,
      )

  -- The error of a lookup is read as "no project has it" only if every probe that completed was
  -- answered by a status other than 200, or if the message of a probe's error holds that very
  -- phrase.
  pub parallel_lookup-negative :
      (e : Text)
      → (parallel_lookup settings env image reference accept w).0 ≡ err e
      → is_all_projects_non_200 e ≡ true
      → All IsMiss (turns settings env w)
        ⊎ ((f : Text) × Had (turns settings env w) (err f) × (contains not_found_tail f ≡ true))
  parallel_lookup-negative e failed neg =
      elim (parallel_lookup-cases settings env image reference accept w) [
        | inl (_, nothing) ↦ absurd (not-negative failed nothing neg none_discovered_lem)
        | inr (inl (_, shut)) ↦ absurd (not-negative failed shut neg all_circuits_open_lem)
        | inr (inr (_, _, ended)) ↦
            end-negative (end_of_lookup settings env image reference accept w) e
              (fan_loop-Means env accept _ none none _) (sym ended ∙ failed) neg
      ]

  end-misses :
      (end : End)
      → Means accept (turns settings env w) none none end
      → All IsMiss (turns settings env w)
      → outcome_of_end image reference end ≡ err (not_found_error image reference)
  unfolding outcome_of_end
  end-misses nowhere m misses = refl
  end-misses (fallen_back x) (inl none_some) misses = cc
  end-misses (all_failed f) (inl none_some) misses = cc
  end-misses (found x) (had, a) misses =
      let (r, same, bad) = miss-not_good _ (ok x) misses had in
      absurd (bad (ground (arith, same, is_accepted-status accept x a)))
  end-misses (fallen_back x) (inr (had, good)) misses =
      let (r, same, bad) = miss-not_good _ (ok x) misses had in
      absurd (bad (ground (arith, same, good)))
  end-misses (all_failed f) (inr had) misses =
      let (r, same, bad) = miss-not_good _ (err f) misses had in cc

  -- If some project is probed, and every probe that completes is answered by a status other
  -- than 200, be it a server error, the lookup fails with "not found", whether or not other
  -- projects were probed, and the resolver reads that error as one to be cached.
  pub parallel_lookup-misses :
      is_empty (futures settings env w) ≡ false
      → All IsMiss (turns settings env w)
      → ((parallel_lookup settings env image reference accept w).0
          ≡ err (not_found_error image reference))
        × (is_all_projects_non_200 (not_found_error image reference) ≡ true)
  parallel_lookup-misses some_future misses = (
    elim (parallel_lookup-cases settings env image reference accept w) [
      | inl (empty, _) ↦ absurd (no_futures settings env w empty some_future)
      | inr (inl (shut, _)) ↦ cc
      | inr (inr (_, _, ended)) ↦
          ended
          ∙ end-misses (end_of_lookup settings env image reference accept w)
              (fan_loop-Means env accept _ none none _) misses
    ],
    not_found_error-negative image reference,
  )
