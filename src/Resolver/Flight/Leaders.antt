-- ===== src/Resolver/Flight/Leaders.antt =====
-- At most one leader, and one answer for each flight.
use mathlib.Core.Path.{subst}
use harbor_router.Common.{
  ℕ, ◌+◌, ◌≡◌, inl, inr, refl, ◌∙◌, none, some, List, [], ◌∷◌, arith, Outcome,
}
use harbor_router.Resolver.World.{Response}
use harbor_router.Resolver.Flight.Moves.{
  Moved, stays, starts, joins, subscribes, leaves, answers, unlists, waits, gets, gives_up, drops,
  move-Moved,
}
use harbor_router.Resolver.Flight.{
  leading, publishing, joined, cloned, send, waiting, returned, cancelled, System, Move, put, late,
  at, move, moves, quiet,
}
use harbor_router.Resolver.Flight.Orderly.{
  Fits, IsOrderly, Fits-put, one-put, one-put_first, IsOrderly-at, nobody-leads, others_idle,
  Fits-idle, Fits-answers, put-other, put_self, send-kept, kept-some,
}

IsOrderly-enter :
    (i : ℕ) (s : System)
    → IsOrderly s
    → s.flight ≡ none
    → IsOrderly (at i (leading s.next) (record s { flight = some s.next; next = s.next + 1 }))
IsOrderly-enter i s h empty = record {
  answers = h.answers;
  fits =
      Fits-put i (leading s.next) s.callers (some s.next) h.answers
        (refl, h.fresh s.next (omega arith))
        (λ j ne.
          Fits-idle s.flight (some s.next) h.answers (s.callers j) (nobody-leads s j h empty)
            (h.fits j));
  kept = h.kept;
  one = one-put_first i (leading s.next) s.callers (λ j ne. nobody-leads s j h empty);
  fresh = λ channel le. h.fresh channel (omega (arith, le));
  below = λ channel e. ground (arith, e);
}

IsOrderly-answer :
    (i channel : ℕ) (o : Outcome Response) (s : System)
    → IsOrderly s
    → s.callers i ≡ leading channel
    → IsOrderly (at i (publishing channel o) (send channel o s))
unfolding send
IsOrderly-answer i channel o s h stands =
    let (named, pending) = subst (Fits s.flight h.answers) stands (h.fits i) in
    let idle = others_idle s i h (rw stands refl) in
    record {
      answers = put channel (some o) h.answers;
      fits =
          Fits-put i (publishing channel o) s.callers s.flight (put channel (some o) h.answers)
            (named, put_self channel (some o) h.answers)
            (λ j ne.
              Fits-answers s.flight h.answers (s.callers j) channel o pending (idle j ne)
                (h.fits j));
      kept = λ c. send-kept channel c o h.answers s pending (h.kept c);
      one = one-put_first i (publishing channel o) s.callers idle;
      fresh = λ c le.
          let lt = h.below channel named in
          put-other channel c (some o) h.answers (λ e. omega (arith, e, lt, le)) ∙ h.fresh c le;
      below = h.below;
    }

IsOrderly-unlist :
    (i channel : ℕ) (o : Outcome Response) (s : System)
    → IsOrderly s
    → s.callers i ≡ publishing channel o
    → IsOrderly (at i (returned channel o) (record s { flight = none }))
IsOrderly-unlist i channel o s h stands =
    let (named, had) = subst (Fits s.flight h.answers) stands (h.fits i) in
    let idle = others_idle s i h (rw stands refl) in
    record {
      answers = h.answers;
      fits =
          Fits-put i (returned channel o) s.callers none h.answers (inl had)
            (λ j ne. Fits-idle s.flight none h.answers (s.callers j) (idle j ne) (h.fits j));
      kept = h.kept;
      one = one-put i (returned channel o) s.callers refl h.one;
      fresh = h.fresh;
      below = λ c e. absurd (cc e);
    }

Moved-IsOrderly : {i : ℕ} {s t : System} → Moved i s t → IsOrderly s → IsOrderly t
Moved-IsOrderly stays h = h
Moved-IsOrderly {i} {s} (starts e empty) h = IsOrderly-enter i s h empty
Moved-IsOrderly {i} {s} (joins channel e taken) h =
    IsOrderly-at i (cloned channel) s.receivers s h refl tt
Moved-IsOrderly {i} {s} (subscribes channel e) h = IsOrderly-at i (joined channel) _ s h refl tt
Moved-IsOrderly {i} {s} (answers channel o e) h = IsOrderly-answer i channel o s h e
Moved-IsOrderly {i} {s} (unlists channel o e) h = IsOrderly-unlist i channel o s h e
Moved-IsOrderly {i} {s} (waits channel e empty) h =
    IsOrderly-at i (waiting channel) s.receivers s h refl tt
Moved-IsOrderly {i} {s} (gets channel o e had) h =
    IsOrderly-at i (returned channel o) _ s h refl (inl (kept-some s h channel o had))
Moved-IsOrderly {i} {s} (gives_up channel e) h =
    IsOrderly-at i (returned channel late) _ s h refl (inr refl)
Moved-IsOrderly {i} {s} (drops channel e) h = IsOrderly-at i cancelled s.receivers s h refl tt
Moved-IsOrderly {i} {s} (leaves channel e) h = IsOrderly-at i cancelled _ s h refl tt

quiet-IsOrderly : IsOrderly quiet
quiet-IsOrderly = record {
  answers = λ channel. none;
  kept = λ channel. inl refl;
  fits = λ i. tt;
  one = λ i j h. absurd (ground (arith, h));
  fresh = λ channel le. refl;
  below = λ channel e. absurd (cc e);
}

pub moves-IsOrderly_from :
    (ms : List (ℕ × Move)) (s : System) → IsOrderly s → IsOrderly (moves ms s)
unfolding moves
moves-IsOrderly_from [] s h = h
moves-IsOrderly_from ((i, m) ∷ ms) s h =
    moves-IsOrderly_from ms (move (i, m) s) (Moved-IsOrderly (move-Moved i m s) h)

-- However callers with one key interleave, at most one leads at a time, and the flight in the map
-- is the one it leads; each flight has at most one answer, what its leader ended with: its
-- channel holds that or nothing, and every caller returns the answer of its flight or the
-- timeout.
pub moves-IsOrderly : (ms : List (ℕ × Move)) → IsOrderly (moves ms quiet)
moves-IsOrderly ms = moves-IsOrderly_from ms quiet quiet-IsOrderly
