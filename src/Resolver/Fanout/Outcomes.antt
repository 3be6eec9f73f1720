-- ===== src/Resolver/Fanout/Outcomes.antt =====
-- What each end of the loop over the probes says of the probes.
use mathlib.Core.List.{Memᴰ}
use harbor_router.Common.{
  ◌≡◌, ◌≢◌, ◌⊎◌, inl, inr, refl, true, Option, none, some, List, [], ◌∷◌, arith, Option-cases, All,
  Text, Outcome, ok, err,
}
use harbor_router.Cache.{CacheBackend}
use harbor_router.Resolver.World.{Response, Probe, Turn, completed, deadline, Environment, World}
use harbor_router.Resolver.Fanout.{
  probe_result, End, found, fallen_back, all_failed, nowhere, end_of_stream, is_accepted, winner,
  next_fallback, next_error, note, fan_loop,
}

-- A probe among the turns had this outcome.
abbrev pub Had : List Turn → Outcome Response → Type 0
Had turns o =
    (project : Text) × (probe : Probe) × Memᴰ (completed project probe) turns
    × (probe_result project probe ≡ o)

-- A probe that was answered, and not by a manifest.
abbrev pub IsMiss : Turn → Type 0
IsMiss (completed project probe) =
    (r : Response) × (probe_result project probe ≡ ok r) × (r.status ≢ 200)
IsMiss deadline = Unit

-- What an end means, when the loop began with a fallback and an error.
abbrev pub Means : List Text → List Turn → Option Response → Option Text → End → Type 0
Means accept turns fallback last_err (found r) = Had turns (ok r) × (is_accepted accept r ≡ true)
Means accept turns fallback last_err (fallen_back r) =
    (fallback ≡ some r) ⊎ (Had turns (ok r) × (r.status ≡ 200))
Means accept turns fallback last_err (all_failed e) = (last_err ≡ some e) ⊎ Had turns (err e)
Means accept turns fallback last_err nowhere =
    (fallback ≡ none) × (last_err ≡ none) × All IsMiss turns

Had-cons : {t : Turn} {ts : List Turn} {o : Outcome Response} → Had ts o → Had (t ∷ ts) o
Had-cons (p, probe, m, e) = (p, probe, Memᴰ.tail m, e)

winner-some :
    (accept : List Text) (o : Outcome Response) (r : Response)
    → winner accept o ≡ some r
    → (o ≡ ok r) × (is_accepted accept r ≡ true)
winner-some accept (ok x) r h = (ground arith, ground arith)
winner-some accept (err e) r h = cc

next_fallback-some :
    (o : Outcome Response) (fallback : Option Response) (r : Response)
    → next_fallback o fallback ≡ some r
    → (fallback ≡ some r) ⊎ ((o ≡ ok r) × (r.status ≡ 200))
next_fallback-some (ok x) none r h = inr (ground arith, ground arith)
next_fallback-some (ok x) (some y) r h = inl h
next_fallback-some (err e) fallback r h = inl h

next_error-some :
    (o : Outcome Response) (last_err : Option Text) (e : Text)
    → next_error o last_err ≡ some e
    → (last_err ≡ some e) ⊎ (o ≡ err e)
next_error-some (ok x) last_err e h = inl h
next_error-some (err f) last_err e h = inr cc

next_none :
    (o : Outcome Response) (fallback : Option Response) (last_err : Option Text)
    → next_fallback o fallback ≡ none
    → next_error o last_err ≡ none
    → (fallback ≡ none) × (last_err ≡ none) × ((r : Response) × (o ≡ ok r) × (r.status ≢ 200))
next_none (ok x) none last_err f l = (refl, l, (x, refl, ground arith))
next_none (ok x) (some y) last_err f l = cc
next_none (err e) fallback last_err f l = cc

-- What an end means is carried over a probe that did not end the loop.
Means-cons :
    (accept : List Text) (project : Text) (probe : Probe) (turns : List Turn)
    (fallback : Option Response) (last_err : Option Text) (end : End)
    → winner accept (probe_result project probe) ≡ none
    → Means accept turns
        (next_fallback (probe_result project probe) fallback)
        (next_error (probe_result project probe) last_err)
        end
    → Means accept (completed project probe ∷ turns) fallback last_err end
Means-cons accept project probe turns fallback last_err (found r) lost (had, a) = (Had-cons had, a)
Means-cons accept project probe turns fallback last_err (fallen_back r) lost (inr (had, s)) =
    inr (Had-cons had, s)
Means-cons accept project probe turns fallback last_err (fallen_back r) lost (inl kept) =
    elim (next_fallback-some (probe_result project probe) fallback r kept) [
      | inl before ↦ inl before
      | inr (here, good) ↦ inr ((project, probe, Memᴰ.head refl, here), good)
    ]
Means-cons accept project probe turns fallback last_err (all_failed e) lost (inr had) =
    inr (Had-cons had)
Means-cons accept project probe turns fallback last_err (all_failed e) lost (inl kept) =
    elim (next_error-some (probe_result project probe) last_err e kept) [
      | inl before ↦ inl before
      | inr here ↦ inr (project, probe, Memᴰ.head refl, here)
    ]
Means-cons accept project probe turns fallback last_err nowhere lost (f, l, misses) =
    let (no_fallback, no_error, miss) =
      next_none (probe_result project probe) fallback last_err f l in
    (no_fallback, no_error, (miss, misses))

Means-deadline :
    (accept : List Text) (turns : List Turn) (last_err : Option Text) (end : End)
    → Means accept turns none last_err end
    → Means accept (deadline ∷ turns) none last_err end
Means-deadline accept turns last_err (found r) (had, a) = (Had-cons had, a)
Means-deadline accept turns last_err (fallen_back r) (inl e) = inl e
Means-deadline accept turns last_err (fallen_back r) (inr (had, s)) = inr (Had-cons had, s)
Means-deadline accept turns last_err (all_failed e) (inl k) = inl k
Means-deadline accept turns last_err (all_failed e) (inr had) = inr (Had-cons had)
Means-deadline accept turns last_err nowhere (f, l, misses) = (f, l, (tt, misses))

Means-end :
    (accept : List Text) (fallback : Option Response) (last_err : Option Text)
    → Means accept [] fallback last_err (end_of_stream fallback last_err)
Means-end accept (some r) last_err = inl refl
Means-end accept none (some e) = inl refl
Means-end accept none none = (refl, refl, tt)

module _ {c : CacheBackend} (env : Environment) (accept : List Text) where
  pub fan_loop-lost :
      (project : Text) (probe : Probe) (turns : List Turn) (fallback : Option Response)
      (last_err : Option Text) (w : World c)
      → winner accept (probe_result project probe) ≡ none
      → fan_loop env accept (completed project probe ∷ turns) fallback last_err w
        ≡ fan_loop env accept turns
            (next_fallback (probe_result project probe) fallback)
            (next_error (probe_result project probe) last_err)
            (note env project (probe_result project probe) w)
  unfolding fan_loop
  fan_loop-lost project probe turns fallback last_err w lost = rw (lost, fan_loop)

  pub fan_loop-won :
      (project : Text) (probe : Probe) (turns : List Turn) (fallback : Option Response)
      (last_err : Option Text) (w : World c) (best : Response)
      → winner accept (probe_result project probe) ≡ some best
      → fan_loop env accept (completed project probe ∷ turns) fallback last_err w
        ≡ (found best, note env project (probe_result project probe) w)
  unfolding fan_loop
  fan_loop-won project probe turns fallback last_err w best won = rw (won, fan_loop)

  -- In whatever order the probes complete: the loop ends with a manifest that was asked for, if a
  -- probe brought it with status 200; with a fallback, if a probe brought it with status 200; with the
  -- error of a probe; or with nothing, if every probe was answered by another status.
  pub fan_loop-Means :
      (turns : List Turn) (fallback : Option Response) (last_err : Option Text) (w : World c)
      → Means accept turns fallback last_err (fan_loop env accept turns fallback last_err w).0
  unfolding fan_loop
  fan_loop-Means [] fallback last_err w = Means-end accept fallback last_err
  fan_loop-Means (deadline ∷ turns) none last_err w =
      Means-deadline accept turns last_err _ (fan_loop-Means turns none last_err w)
  fan_loop-Means (deadline ∷ turns) (some r) last_err w = inl refl
  fan_loop-Means (completed project probe ∷ turns) fallback last_err w =
      elim (Option-cases (winner accept (probe_result project probe))) [
        | inl lost ↦ rw (fan_loop-lost project probe turns fallback last_err w lost) (
            Means-cons accept project probe turns fallback last_err _ lost
              (fan_loop-Means turns _ _ _))
        | inr (best, won) ↦ rw (fan_loop-won project probe turns fallback last_err w best won) (
            let (same, a) = winner-some accept (probe_result project probe) best won in
            ((project, probe, Memᴰ.head refl, same), a))
      ]
