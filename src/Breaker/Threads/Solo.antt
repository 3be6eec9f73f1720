-- ===== src/Breaker/Threads/Solo.antt =====
-- A thread that is not interrupted does what the operation's one-step description says.
use harbor_router.Common.{ℕ, ◌-◌, ◌≡◌, arith, leb, ◌==◌, ◌&&◌, not, Text}
use harbor_router.Breaker.{state_open, ProjectHealth}
use harbor_router.Breaker.Calls.{available, success, failure, settle}
use harbor_router.Breaker.Threads.Atoms.{
  check_state, reset_failures, add_failure, answered, finished, access, solo,
}

-- Alone, each operation of the breaker ends within five atomic accesses, and leaves the project's
-- record as `settle` has it; `is_available` answers false exactly for an open project whose
-- timeout has not passed.
pub solo-eq-settle :
    (threshold timeout now : ℕ) (p : Text) (m : ProjectHealth)
    → (solo threshold timeout 5 (check_state now) m ≡ (
      answered (not (m.state == state_open && not (leb timeout (now - m.last_failure_epoch)))),
      settle threshold timeout (available now p) m,
    ))
      × (solo threshold timeout 5 reset_failures m
          ≡ (finished, settle threshold timeout (success p) m))
      × (solo threshold timeout 5 (add_failure now) m
          ≡ (finished, settle threshold timeout (failure now p) m))
unfolding solo access settle
solo-eq-settle threshold timeout now p m = (ground arith, ground arith, ground arith)
