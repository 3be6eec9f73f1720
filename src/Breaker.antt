-- ===== src/Breaker.antt =====
-- src/circuit_breaker.rs: one breaker for each proxy-cache project.
-- The operations here are those of a caller that is not interrupted; `Breaker.Threads` has their
-- atomic steps. The two metrics that they write are fields: `gauge` is circuit_breaker_state, and
-- `transitions` lists the increments of circuit_breaker_transitions_total, the newest first.
-- `now` is the value of `now_epoch_secs()`; `-` stops at 0, as `saturating_sub` does.
pub mod Calls
pub mod History
pub mod Cooldown
pub mod Refines
pub mod Threads
mod Examples
use Prim.Native.Nat.{max}
use harbor_router.Common.{
  ℕ, ◌+◌, ◌-◌, ◌%◌, ◌^◌, Bool, true, false, Option, none, some, List, [], ◌∷◌, leb, ◌==◌,
  if◌then◌else◌, Text, codes, Dict, lookup, insert,
}

abbrev pub state_closed : ℕ
state_closed = 0

abbrev pub state_open : ℕ
state_open = 1

abbrev pub state_half_open : ℕ
state_half_open = 2

pub record ProjectHealth : Type 0 where
  pub consecutive_failures : ℕ  -- AtomicU32
  pub last_failure_epoch : ℕ  -- AtomicU64
  pub state : ℕ  -- AtomicU8

abbrev pub default_health : ProjectHealth
default_health = record { consecutive_failures = 0; last_failure_epoch = 0; state = state_closed }

pub record Transition : Type 0 where
  pub project : Text
  pub from : Text
  pub to : Text

pub record CircuitBreaker : Type 0 where
  pub projects : Dict ProjectHealth
  pub threshold : ℕ
  pub timeout_secs : ℕ
  pub gauge : Dict ℕ
  pub transitions : List Transition

unfoldable pub new : ℕ → ℕ → CircuitBreaker
new threshold timeout_secs = record {
  projects = [];
  threshold = max threshold 1;
  timeout_secs = timeout_secs;
  gauge = [];
  transitions = [];
}

unfoldable pub state_name : ℕ → Text
state_name s =
    if s == state_closed
    then codes "closed"
    else if s == state_open
    then codes "open"
    else if s == state_half_open
    then codes "half_open"
    else codes "unknown"

-- `fetch_add(1)`, and the sum that the caller computes from the value it returns, in a build
-- without overflow checks.
abbrev pub increment_u32 : ℕ → ℕ
increment_u32 n = (n + 1) % 2 ^ 32

-- What `entry(..).or_default()` followed by `get` finds.
unfoldable pub project_health : Text → CircuitBreaker → ProjectHealth
project_health project cb = elim (lookup project cb.projects) [ none ↦ default_health | some h ↦ h ]

abbrev pub put_health : Text → ProjectHealth → CircuitBreaker → CircuitBreaker
put_health project h cb = record cb { projects = insert project h cb.projects }

abbrev pub set_gauge : Text → ℕ → CircuitBreaker → CircuitBreaker
set_gauge project v cb = record cb { gauge = insert project v cb.gauge }

abbrev pub log_transition : Text → ℕ → ℕ → CircuitBreaker → CircuitBreaker
log_transition project from to cb = record cb {
  transitions =
      record { project = project; from = state_name from; to = state_name to } ∷ cb.transitions;
}

-- The branch of an open project whose timeout has passed.
try_half_open : Text → ProjectHealth → CircuitBreaker → CircuitBreaker
try_half_open project h cb = log_transition project state_open state_half_open (
    set_gauge project state_half_open
      (put_health project (record h { state = state_half_open }) cb))

unfoldable pub is_available : ℕ → Text → CircuitBreaker → Bool × CircuitBreaker
unfolding project_health try_half_open
is_available now project cb =
    let h = project_health project cb in
    if h.state == state_open
    then if leb cb.timeout_secs (now - h.last_failure_epoch)
      then (true, try_half_open project h cb)
      else (false, put_health project h cb)
    else (true, put_health project h cb)

-- `while current != target { compare_exchange(current, target) }`, with no other thread.
unfoldable pub move_state : Text → ℕ → CircuitBreaker → CircuitBreaker
unfolding project_health
move_state project target cb =
    let h = project_health project cb in
    if h.state == target
    then cb
    else log_transition project h.state target (put_health project (record h { state = target }) cb)

unfoldable pub record_success : Text → CircuitBreaker → CircuitBreaker
record_success project cb =
    let h = record (project_health project cb) { consecutive_failures = 0 } in
    set_gauge project state_closed (move_state project state_closed (put_health project h cb))

unfoldable pub record_failure : ℕ → Text → CircuitBreaker → CircuitBreaker
record_failure now project cb =
    let h = project_health project cb in
    let failures : ℕ = increment_u32 h.consecutive_failures in
    let counted =
      put_health project (record h { consecutive_failures = failures; last_failure_epoch = now })
        cb in
    let tripped =
      if leb counted.threshold failures then move_state project state_open counted else counted in
    set_gauge project (project_health project tripped).state tripped
