-- ===== src/Breaker/Threads/Races.antt =====
-- What holds, and what does not, when threads interleave.
use harbor_router.Common.{
  ℕ, zero, suc, ◌+◌, ◌≤◌, ◌<◌, ◌^◌, ◌≡◌, ◌≢◌, List, [], ◌∷◌, arith, All, Text,
}
use harbor_router.Breaker.{state_closed, state_open, state_half_open, ProjectHealth}
use harbor_router.Breaker.Calls.{available, failure, settle}
use harbor_router.Breaker.Threads.Atoms.{
  Point, check_state, reset_failures, exchange_to_close, add_failure, exchange_to_open, access,
  advance, interleave,
}

-- A thread's local copy of the state is one of the three, and not the one that it moves to.
abbrev pub IsPending : Point → Type 0
IsPending (exchange_to_close s) = (s ≤ state_half_open) × (s ≢ state_closed)
IsPending (exchange_to_open s) = (s ≤ state_half_open) × (s ≢ state_open)
IsPending _ = Unit

module _ (threshold timeout : ℕ) where
  access-IsPending :
      (p : Point) (m : ProjectHealth)
      → IsPending p
      → m.state ≤ state_half_open
      → IsPending (access threshold timeout p m).0
        × ((access threshold timeout p m).1.state ≤ state_half_open)
  unfolding access
  access-IsPending (check_state now) m h s = ground arith
  access-IsPending p m h s = ground arith

  advance-IsPending :
      (i : ℕ) (ps : List Point) (m : ProjectHealth)
      → All IsPending ps
      → m.state ≤ state_half_open
      → All IsPending (advance threshold timeout i ps m).0
        × ((advance threshold timeout i ps m).1.state ≤ state_half_open)
  unfolding advance
  advance-IsPending i [] m h s = (tt, s)
  advance-IsPending zero (p ∷ ps) m (here, later) s =
      let (next, kept) = access-IsPending p m here s in ((next, later), kept)
  advance-IsPending (suc i) (p ∷ ps) m (here, later) s =
      let (next, kept) = advance-IsPending i ps m later s in ((here, next), kept)

  -- However threads interleave, from points and a state in which no compare_exchange is about
  -- to be tried from the state that it moves to, the state stays one of the three and no thread
  -- comes to such a point.
  pub interleave-IsPending :
      (schedule : List ℕ) (ps : List Point) (m : ProjectHealth)
      → All IsPending ps
      → m.state ≤ state_half_open
      → All IsPending (interleave threshold timeout schedule ps m).0
        × ((interleave threshold timeout schedule ps m).1.state ≤ state_half_open)
  unfolding interleave
  interleave-IsPending [] ps m h s = (h, s)
  interleave-IsPending (i ∷ is) ps m h s =
      let (h', s') = advance-IsPending i ps m h s in interleave-IsPending is _ _ h' s'

-- The accesses of a failure (thread 1) and of a success (thread 0) of the same project, where the
-- success runs between the failure's count and its exchange.
abbrev pub late_reset : List ℕ
late_reset = 1 ∷ 1 ∷ 0 ∷ 0 ∷ 1 ∷ 1 ∷ []

late_reset_lem :
    (threshold timeout now : ℕ) (m : ProjectHealth)
    → threshold < 2 ^ 32
    → m.state ≡ state_closed
    → m.consecutive_failures + 1 ≡ threshold
    → (interleave threshold timeout late_reset (reset_failures ∷ add_failure now ∷ []) m).1
      ≡ record { consecutive_failures = 0; last_failure_epoch = now; state = state_open }
unfolding interleave advance access
late_reset_lem threshold timeout now m small c f = ground arith

-- A success that runs between the count and the exchange of the failure that trips a closed
-- breaker leaves the breaker open with no failure counted. When the threshold is at least two and
-- the timeout has passed, the probe that is then let through may fail and the breaker stays
-- half-open.
pub late_reset-half_open :
    (threshold timeout now later again : ℕ) (p : Text) (m : ProjectHealth)
    → 2 ≤ threshold
    → threshold < 2 ^ 32
    → m.state ≡ state_closed
    → m.consecutive_failures + 1 ≡ threshold
    → now + timeout ≤ later
    → let raced =
        (interleave threshold timeout late_reset (reset_failures ∷ add_failure now ∷ []) m).1 in
      (raced ≡ record { consecutive_failures = 0; last_failure_epoch = now; state = state_open })
      × (settle threshold timeout
            (failure again p)
            (settle threshold timeout (available later p) raced)
          ≡ record {
            consecutive_failures = 1;
            last_failure_epoch = again;
            state = state_half_open;
          })
unfolding settle
late_reset-half_open threshold timeout now later again p m two small c f past =
    let e = late_reset_lem threshold timeout now m small c f in (e, rw e (ground arith))
