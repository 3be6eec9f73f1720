-- ===== src/Breaker/Threads/Atoms.antt =====
-- The program points of the three operations, and what one atomic access does.
use harbor_router.Common.{
  ℕ, zero, suc, ◌-◌, Bool, true, false, List, [], ◌∷◌, leb, ◌==◌, if◌then◌else◌,
}
use harbor_router.Breaker.{state_closed, state_open, state_half_open, ProjectHealth, increment_u32}

-- Each constructor is the access that the thread makes next, with the locals that are still read.
pub data Point : Type 0 where
  check_state : (now : ℕ) → Point
  check_epoch : (now : ℕ) → Point
  check_exchange : Point
  reset_failures : Point
  load_to_close : Point
  exchange_to_close : (current : ℕ) → Point
  add_failure : (now : ℕ) → Point
  store_epoch : (now failures : ℕ) → Point
  load_to_open : Point
  exchange_to_open : (current : ℕ) → Point
  load_for_gauge : Point
  answered : Bool → Point
  finished : Point

module _ (threshold timeout : ℕ) where
  -- The head of `while current != target`.
  abbrev close_loop : ℕ → Point
  close_loop current = if current == state_closed then finished else exchange_to_close current

  abbrev open_loop : ℕ → Point
  open_loop current = if current == state_open then load_for_gauge else exchange_to_open current

  unfoldable pub access : Point → ProjectHealth → Point × ProjectHealth
  access (check_state now) m = (if m.state == state_open then check_epoch now else answered true, m)
  access (check_epoch now) m =
      (if leb timeout (now - m.last_failure_epoch) then check_exchange else answered false, m)
  access check_exchange m =
      (answered true, if m.state == state_open then record m { state = state_half_open } else m)
  access reset_failures m = (load_to_close, record m { consecutive_failures = 0 })
  access load_to_close m = (close_loop m.state, m)
  access (exchange_to_close current) m =
      if m.state == current
      then (finished, record m { state = state_closed })
      else (close_loop m.state, m)
  access (add_failure now) m =
      let failures : ℕ = increment_u32 m.consecutive_failures in
      (store_epoch now failures, record m { consecutive_failures = failures })
  access (store_epoch now failures) m = (
    if leb threshold failures then load_to_open else load_for_gauge,
    record m { last_failure_epoch = now },
  )
  access load_to_open m = (open_loop m.state, m)
  access (exchange_to_open current) m =
      if m.state == current
      then (load_for_gauge, record m { state = state_open })
      else (open_loop m.state, m)
  access load_for_gauge m = (finished, m)
  access (answered b) m = (answered b, m)
  access finished m = (finished, m)

  -- A thread alone, for a number of accesses.
  unfoldable pub solo : ℕ → Point → ProjectHealth → Point × ProjectHealth
  solo zero p m = (p, m)
  solo (suc n) p m = let (p', m') = access p m in solo n p' m'

  -- The thread at a place makes its next access.
  unfoldable pub advance : ℕ → List Point → ProjectHealth → List Point × ProjectHealth
  advance i [] m = ([], m)
  advance zero (p ∷ ps) m = let (p', m') = access p m in (p' ∷ ps, m')
  advance (suc i) (p ∷ ps) m = let (ps', m') = advance i ps m in (p ∷ ps', m')

  -- Threads that take turns as a schedule says.
  unfoldable pub interleave : List ℕ → List Point → ProjectHealth → List Point × ProjectHealth
  interleave [] ps m = (ps, m)
  interleave (i ∷ is) ps m = let (ps', m') = advance i ps m in interleave is ps' m'
