-- ===== src/Breaker/Cooldown.antt =====
-- When a breaker lets requests through after a failure.
use Prim.Native.Nat.{max}
use harbor_router.Common.{
  ℕ, ◌+◌, ◌-◌, ◌≤◌, ◌<◌, ◌^◌, ◌≡◌, true, false, List, arith, length, leb, ◌==◌, if◌then◌else◌, Text,
  text_eq_self,
}
use harbor_router.Breaker.{
  state_open, state_half_open, CircuitBreaker, new, project_health, is_available, record_failure,
}
use harbor_router.Breaker.History.{streak-le-length, run-Tracks}
use harbor_router.Breaker.Calls.{
  Op, available, failure, step, threshold-run, run, settle, streak, project_health-step,
}

-- The answer of `is_available`, from the record of the project.
is_available_lem :
    (now : ℕ) (q : Text) (cb : CircuitBreaker)
    → (is_available now q cb).0 ≡ (
        if (project_health q cb).state == state_open
        then leb cb.timeout_secs (now - (project_health q cb).last_failure_epoch)
        else true)
unfolding is_available
is_available_lem now q cb = ground arith

-- `q` is refused from time `now` until `timeout_secs` have passed, and then let through.
pub record IsCooling (now : ℕ) (q : Text) (cb : CircuitBreaker) : Type 0 where
  pub open_state : (project_health q cb).state ≡ state_open
  pub refused :
      (later : ℕ)
      → later < now + cb.timeout_secs
      → 0 < cb.timeout_secs
      → (is_available later q cb).0 ≡ false
  pub probed : (later : ℕ) → now + cb.timeout_secs ≤ later → (is_available later q cb).0 ≡ true
  pub half_opened :
      (later : ℕ)
      → now + cb.timeout_secs ≤ later
      → (project_health q (is_available later q cb).1).state ≡ state_half_open

IsCooling-failure :
    (now : ℕ) (q : Text) (cb : CircuitBreaker)
    → (project_health q cb).state ≡ state_open
    → (project_health q cb).last_failure_epoch ≡ now
    → IsCooling now q cb
unfolding step settle
IsCooling-failure now q cb s e = record {
  open_state = s;
  refused = λ later lt pos. ground (arith, is_available_lem later q cb);
  probed = λ later le. ground (arith, is_available_lem later q cb);
  half_opened =
      λ later le. ground (arith, project_health-step q cb (available later q), text_eq_self q);
}

-- After any fewer than 2^32 - 1 calls, a failure that brings a project's streak to the threshold
-- opens its breaker, in whatever state it was: it then refuses the project until the timeout has
-- passed since that failure, and after that lets requests through and goes to half-open.
pub record_failure-IsCooling :
    (threshold timeout now : ℕ) (ops : List Op) (q : Text)
    → length ops + 1 < 2 ^ 32
    → max threshold 1 ≤ streak q 0 ops + 1
    → IsCooling now q (record_failure now q (run (new threshold timeout) ops))
unfolding step settle new
record_failure-IsCooling threshold timeout now ops q small trips =
    let cb = run (new threshold timeout) ops in
    let t = run-Tracks threshold timeout ops q (omega arith) in
    let after = project_health-step q cb (failure now q) in
    let capped : cb.threshold ≡ max threshold 1 = threshold-run (new threshold timeout) ops in
    IsCooling-failure now q (step cb (failure now q))
      (ground (arith, after, text_eq_self q, capped, t.counted, streak-le-length q 0 ops))
      (ground (arith, after, text_eq_self q))
