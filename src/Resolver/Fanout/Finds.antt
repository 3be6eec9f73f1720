-- ===== src/Resolver/Fanout/Finds.antt =====
-- `parallel_lookup` finds a manifest that some probe brings.
use mathlib.Core.List.{Memᴰ}
use harbor_router.Common.{
  ◌≡◌, ◌⊎◌, inl, inr, refl, ap, ◌∙◌, false, Option, none, some, List, [], ◌∷◌, Option-cases,
  is_empty, Text, Outcome, ok, err,
}
use harbor_router.Cache.{CacheBackend}
use harbor_router.Resolver.World.{
  Response, Probe, Turn, completed, deadline, Environment, Settings, World,
}
use harbor_router.Resolver.Fanout.{
  probe_result, End, found, fallen_back, all_failed, nowhere, winner, next_fallback, fan_loop,
  outcome_of_end, parallel_lookup,
}
use harbor_router.Resolver.Fanout.Outcomes.{Had, fan_loop-lost, fan_loop-won}
use harbor_router.Resolver.Fanout.Lookup.{
  IsExecutor, futures, turns, end_of_lookup, parallel_lookup-cases,
}
use harbor_router.Resolver.Fanout.Verdicts.{no_futures}

-- The loop ended with a manifest.
abbrev IsFound : End → Type 0
IsFound (found r) = Unit
IsFound (fallen_back r) = Unit
IsFound (all_failed e) = ⊥
IsFound nowhere = ⊥

-- A manifest is at hand, or a turn brings one.
abbrev Brings : Option Response → List Turn → Type 0
Brings fallback turns =
    ((r : Response) × (fallback ≡ some r)) ⊎ ((r : Response) × Had turns (ok r) × (r.status ≡ 200))

Brings-deadline : (ts : List Turn) → Brings none (deadline ∷ ts) → Brings none ts
Brings-deadline ts (inl (r, e)) = absurd (cc e)
Brings-deadline ts (inr (r, (p, q, Memᴰ.head same, e), good)) = absurd (cc same)
Brings-deadline ts (inr (r, (p, q, Memᴰ.tail m, e), good)) = inr (r, (p, q, m, e), good)

keeps_fallback : (o : Outcome Response) (r : Response) → next_fallback o (some r) ≡ some r
keeps_fallback (ok x) r = refl
keeps_fallback (err e) r = refl

takes_manifest :
    (r : Response) (fallback : Option Response)
    → r.status ≡ 200
    → (x : Response) × (next_fallback (ok r) fallback ≡ some x)
takes_manifest r none good = (r, rw good refl)
takes_manifest r (some x) good = (x, refl)

Brings-completed :
    (project : Text) (probe : Probe) (ts : List Turn) (fallback : Option Response)
    → Brings fallback (completed project probe ∷ ts)
    → Brings (next_fallback (probe_result project probe) fallback) ts
Brings-completed project probe ts fallback (inl (r, e)) = inl (
  r,
  ap (next_fallback (probe_result project probe)) e ∙ keeps_fallback (probe_result project probe) r,
)
Brings-completed project probe ts fallback (inr (r, (p, q, Memᴰ.tail m, e), good)) =
    inr (r, (p, q, m, e), good)
Brings-completed project probe ts fallback (inr (r, (p, q, Memᴰ.head same, e), good)) =
    let here : probe_result project probe ≡ ok r = cc (same, e) in
    let (x, taken) = takes_manifest r fallback good in
    inl (x, ap (λ o. next_fallback o fallback) here ∙ taken)

module _ {c : CacheBackend} (env : Environment) (accept : List Text) where
  fan_loop-IsFound :
      (ts : List Turn) (fallback : Option Response) (last_err : Option Text) (w : World c)
      → Brings fallback ts
      → IsFound (fan_loop env accept ts fallback last_err w).0
  unfolding fan_loop
  fan_loop-IsFound [] (some r) last_err w b = tt
  fan_loop-IsFound [] none last_err w (inl (r, e)) = absurd (cc e)
  fan_loop-IsFound [] none last_err w (inr (r, (p, q, m, e), good)) = elim m [ ]
  fan_loop-IsFound (deadline ∷ ts) none last_err w b =
      fan_loop-IsFound ts none last_err w (Brings-deadline ts b)
  fan_loop-IsFound (deadline ∷ ts) (some r) last_err w b = tt
  fan_loop-IsFound (completed project probe ∷ ts) fallback last_err w b =
      elim (Option-cases (winner accept (probe_result project probe))) [
        | inl lost ↦
            rw (fan_loop-lost env accept project probe ts fallback last_err w lost)
              (fan_loop-IsFound ts _ _ _ (Brings-completed project probe ts fallback b))
        | inr (best, won) ↦
            rw (fan_loop-won env accept project probe ts fallback last_err w best won) tt
      ]

IsFound-outcome :
    (image reference : Text) (end : End)
    → IsFound end
    → (r : Response) × (outcome_of_end image reference end ≡ ok r)
unfolding outcome_of_end
IsFound-outcome image reference (found r) h = (r, refl)
IsFound-outcome image reference (fallen_back r) h = (r, refl)
IsFound-outcome image reference (all_failed e) h = elim h [ ]
IsFound-outcome image reference nowhere h = elim h [ ]

mem-nonempty : (p : Text) (ps : List Text) → Memᴰ p ps → is_empty ps ≡ false
mem-nonempty p [] m = elim m [ ]
mem-nonempty p (q ∷ ps) m = refl

-- For an executor that completes only futures it was given, if any probe of a lookup brings a
-- manifest with status 200, in whatever order the probes complete, the lookup succeeds, also
-- where the content type is not accepted.
pub parallel_lookup-finds :
    {c : CacheBackend} (settings : Settings) (env : Environment) (image reference : Text)
    (accept : List Text) (w : World c) (r : Response)
    → IsExecutor env
    → Had (turns settings env w) (ok r)
    → r.status ≡ 200
    → (best : Response) × ((parallel_lookup settings env image reference accept w).0 ≡ ok best)
parallel_lookup-finds settings env image reference accept w r fair (p, q, m, e) good =
    let some_future =
      mem-nonempty p (futures settings env w) (fair w.tick (futures settings env w) p q m) in
    elim (parallel_lookup-cases settings env image reference accept w) [
      | inl (empty, _) ↦ absurd (no_futures settings env w empty some_future)
      | inr (inl (shut, _)) ↦ absurd (cc (shut, some_future))
      | inr (inr (_, _, ended)) ↦
          let (best, same) =
            IsFound-outcome image reference (end_of_lookup settings env image reference accept w) (
              fan_loop-IsFound env accept (turns settings env w) none none _
                (inr (r, (p, q, m, e), good))) in
          (best, ended ∙ same)
    ]
