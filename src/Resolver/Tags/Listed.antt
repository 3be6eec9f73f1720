-- ===== src/Resolver/Tags/Listed.antt =====
-- Which tag lists `resolve_tags` answers with, and what it caches.
use mathlib.Core.List.{Memᴰ}
use harbor_router.Common.{
  ◌≡◌, inl, inr, refl, ap, ◌∙◌, Bool, true, Option, none, some, List, [], ◌∷◌, arith, ltb, take,
  length, if◌then◌else◌, Bool-cases, Option-cases, is_empty, keep, Text, Outcome, ok, err,
}
use harbor_router.Validation.{is_safe_project_name}
use harbor_router.Cache.{CacheBackend}
use harbor_router.Resolver.World.{
  Response, Probe, elapsed, answered, Turn, completed, deadline, Environment, Settings, World,
  cache_get,
}
use harbor_router.Resolver.Fanout.Lookup.{IsExecutor}
use harbor_router.Resolver.Manifest.Answers.{IsGood, of_reply-project}
use harbor_router.Resolver.Tags.{
  tags_key, tags_result, listed, fetch_tags, tags_loop, fan_out_tags, resolve_tags,
}

tags_result-project :
    (project : Text) (probe : Probe) (r : Response)
    → tags_result project probe ≡ ok r
    → r.project ≡ project
unfolding tags_result
tags_result-project project elapsed r h = absurd (ground arith)
tags_result-project project (answered reply) r h = of_reply-project project reply r h

listed-ok :
    (o : Outcome Response) (r : Response) → listed o ≡ some r → (o ≡ ok r) × (r.status ≡ 200)
listed-ok (err e) r h = absurd (ground arith)
listed-ok (ok x) r h = (ground arith, ground arith)

holds-cons :
    (p : Text → Bool) (x y : Text) (ys : List Text)
    → p y ≡ true
    → (Memᴰ x (keep p ys) → p x ≡ true)
    → Memᴰ x (y ∷ keep p ys)
    → p x ≡ true
holds-cons p x y ys h later (Memᴰ.head same) = ap p same ∙ h
holds-cons p x y ys h later (Memᴰ.tail rest) = later rest

pub keep-holds : (p : Text → Bool) (xs : List Text) (x : Text) → Memᴰ x (keep p xs) → p x ≡ true
keep-holds p [] x m = elim m [ ]
keep-holds p (y ∷ ys) x m = elim (Bool-cases (p y)) [
  | inl yes_y ↦ holds-cons p x y ys yes_y (λ k. keep-holds p ys x k) (rw yes_y at m)
  | inr no_y ↦ keep-holds p ys x (rw no_y at m)
]

module _ {c : CacheBackend} (settings : Settings) (env : Environment) (image : Text) where
  tags_loop-IsGood :
      (turns : List Turn) (last_err : Option Text) (w : World c) (r : Response)
      → ((project : Text) (probe : Probe)
          → Memᴰ (completed project probe) turns
          → is_safe_project_name project ≡ true)
      → (tags_loop settings env image turns last_err w).0 ≡ ok r
      → IsGood r
  unfolding tags_loop
  tags_loop-IsGood [] last_err w r safe h = absurd (ground arith)
  tags_loop-IsGood (deadline ∷ turns) last_err w r safe h =
      tags_loop-IsGood turns last_err w r (λ p q m. safe p q (Memᴰ.tail m)) h
  tags_loop-IsGood (completed project probe ∷ turns) last_err w r safe h =
      elim (Option-cases (listed (tags_result project probe))) [
        | inl lost ↦
            tags_loop-IsGood turns _ _ r (λ p q m. safe p q (Memᴰ.tail m))
              (rw (lost, tags_loop) at h)
        | inr (best, won) ↦
            let same : best ≡ r = ground (arith, rw (won, tags_loop) at h) in
            let (got, good) = listed-ok (tags_result project probe) best won in
            rw (← same) (
              good,
              rw (tags_result-project project probe best got) (safe project probe (Memᴰ.head refl)),
            )
      ]

  fan_out_tags-IsGood :
      (w : World c) (r : Response)
      → IsExecutor env
      → (fan_out_tags settings env image w).0 ≡ ok r
      → IsGood r
  unfolding fan_out_tags
  fan_out_tags-IsGood w r fair h =
      let projects =
        if ltb settings.max_fanout (length w.projects)
        then take settings.max_fanout w.projects
        else w.projects in
      let futures = keep is_safe_project_name projects in
      elim (Bool-cases (is_empty w.projects)) [
        | inl nothing ↦ absurd (cc (rw (nothing, fan_out_tags) at h))
        | inr some_project ↦ elim (Bool-cases (is_empty futures)) [
          | inl shut ↦ absurd (cc (rw (some_project, shut, fan_out_tags) at h))
          | inr open_one ↦
              tags_loop-IsGood (env.complete w.tick futures) none w r
                (λ project probe m.
                  keep-holds is_safe_project_name projects project
                    (fair w.tick futures project probe m))
                (rw (some_project, open_one, fan_out_tags) at h)
        ]
      ]

  fetch_tags-IsGood :
      (project : Text) (w : World c) (r : Response)
      → is_safe_project_name project ≡ true
      → listed (fetch_tags settings env project image w).0 ≡ some r
      → IsGood r
  unfolding fetch_tags
  fetch_tags-IsGood project w r safe h =
      let (got, good) = listed-ok (fetch_tags settings env project image w).0 r h in
      (good, rw (of_reply-project project _ r (rw (safe, fetch_tags) at got)) safe)

  -- Whatever the cache holds, a tag list that `resolve_tags` answers with has status 200 and
  -- comes from a project whose name passes its check; the executor completes only futures it
  -- was given.
  pub resolve_tags-IsGood :
      (w : World c) (r : Response)
      → IsExecutor env
      → (resolve_tags settings env image w).0 ≡ ok r
      → IsGood r
  unfolding resolve_tags
  resolve_tags-IsGood w r fair h =
      let (cached, w') = cache_get env (tags_key image) w in
      elim (Option-cases cached) [
        | inl miss ↦ fan_out_tags-IsGood w' r fair (rw (miss, resolve_tags) at h)
        | inr (project, hit) ↦ elim (Bool-cases (is_safe_project_name project)) [
          | inr bad ↦ fan_out_tags-IsGood w' r fair (rw (hit, bad, resolve_tags) at h)
          | inl safe ↦ elim (Option-cases (listed (fetch_tags settings env project image w').0)) [
            | inr (x, got) ↦
                let same : x ≡ r = ground (arith, rw (hit, safe, got, resolve_tags) at h) in
                rw (← same) (fetch_tags-IsGood project w' x safe got)
            | inl stale ↦ fan_out_tags-IsGood _ r fair (rw (hit, safe, stale, resolve_tags) at h)
          ]
        ]
      ]
