-- ===== src/Breaker/Calls.antt =====
-- Calls of the three operations of the breaker, and what one call makes of the record of its project.
use harbor_router.Common.{
  ℕ, ◌+◌, ◌-◌, ◌≡◌, ◌∙◌, refl, List, [], ◌∷◌, arith, leb, ◌==◌, ◌&&◌, if◌then◌else◌, Text, text_eq,
  text_eq_iff, lookup-insert,
}
use harbor_router.Breaker.{
  state_closed, state_open, state_half_open, ProjectHealth, CircuitBreaker, increment_u32,
  put_health, set_gauge, project_health, is_available, move_state, record_success, record_failure,
}

pub data Op : Type 0 where
  available : ℕ → Text → Op
  success : Text → Op
  failure : ℕ → Text → Op

unfoldable pub step : CircuitBreaker → Op → CircuitBreaker
step cb (available now p) = (is_available now p cb).1
step cb (success p) = record_success p cb
step cb (failure now p) = record_failure now p cb

unfoldable pub run : CircuitBreaker → List Op → CircuitBreaker
run cb [] = cb
run cb (op ∷ ops) = run (step cb op) ops

abbrev pub subject : Op → Text
subject (available _ p) = p
subject (success p) = p
subject (failure _ p) = p

abbrev pub next_streak : Op → ℕ → ℕ
next_streak (available _ _) n = n
next_streak (success _) n = 0
next_streak (failure _ _) n = n + 1

-- The failures of `p` since its last success, when `n` of them came before the calls.
unfoldable pub streak : Text → ℕ → List Op → ℕ
streak p n [] = n
streak p n (op ∷ ops) = streak p (if text_eq (subject op) p then next_streak op n else n) ops

-- What one call makes of the record of the project that it is about.
unfoldable pub settle : ℕ → ℕ → Op → ProjectHealth → ProjectHealth
settle threshold timeout (available now _) h =
    if h.state == state_open && leb timeout (now - h.last_failure_epoch)
    then record h { state = state_half_open }
    else h
settle threshold timeout (success _) h = record h { consecutive_failures = 0; state = state_closed }
settle threshold timeout (failure now _) h =
    let failures : ℕ = increment_u32 h.consecutive_failures in
    record {
      consecutive_failures = failures;
      last_failure_epoch = now;
      state = if leb threshold failures then state_open else h.state;
    }

pub project_health-put :
    (p q : Text) (h : ProjectHealth) (cb : CircuitBreaker)
    → project_health q (put_health p h cb) ≡ (if text_eq p q then h else project_health q cb)
unfolding project_health
project_health-put p q h cb = ground (arith, lookup-insert p q h cb.projects)

pub project_health-set_gauge :
    (p q : Text) (v : ℕ) (cb : CircuitBreaker)
    → project_health q (set_gauge p v cb) ≡ project_health q cb
unfolding project_health
project_health-set_gauge p q v cb = refl

pub project_health-move_state :
    (p q : Text) (t : ℕ) (cb : CircuitBreaker)
    → project_health q (move_state p t cb)
      ≡ (if text_eq p q then record (project_health q cb) { state = t } else project_health q cb)
unfolding project_health move_state
project_health-move_state p q t cb = ground (
  arith,
  text_eq_iff p q,
  lookup-insert p q (record (project_health p cb) { state = t }) cb.projects,
)

pub project_health-is_available :
    (now : ℕ) (p q : Text) (cb : CircuitBreaker)
    → project_health q (is_available now p cb).1 ≡ (
        if text_eq p q
        then settle cb.threshold cb.timeout_secs (available now p) (project_health q cb)
        else project_health q cb)
unfolding is_available settle
project_health-is_available now p q cb = ground (
  arith,
  text_eq_iff p q,
  lookup-insert p q (project_health p cb) cb.projects,
  lookup-insert p q (record (project_health p cb) { state = state_half_open }) cb.projects,
)

pub project_health-record_success :
    (p q : Text) (cb : CircuitBreaker)
    → project_health q (record_success p cb) ≡ (
        if text_eq p q
        then settle cb.threshold cb.timeout_secs (success p) (project_health q cb)
        else project_health q cb)
unfolding record_success settle
project_health-record_success p q cb =
    let h = record (project_health p cb) { consecutive_failures = 0 } in
    project_health-set_gauge p q state_closed _
    ∙ ground (
      arith,
      text_eq_iff p q,
      project_health-move_state p q state_closed (put_health p h cb),
      project_health-put p q h cb,
    )

pub project_health-record_failure :
    (now : ℕ) (p q : Text) (cb : CircuitBreaker)
    → project_health q (record_failure now p cb) ≡ (
        if text_eq p q
        then settle cb.threshold cb.timeout_secs (failure now p) (project_health q cb)
        else project_health q cb)
unfolding record_failure settle
project_health-record_failure now p q cb =
    let failures : ℕ = increment_u32 (project_health p cb).consecutive_failures in
    let h = record (project_health p cb) {
      consecutive_failures = failures;
      last_failure_epoch = now;
    } in
    project_health-set_gauge p q _ _
    ∙ ground (
      arith,
      text_eq_iff p q,
      project_health-move_state p q state_open (put_health p h cb),
      project_health-put p q h cb,
    )

-- A call settles the record of its project, and leaves every other project's as it was.
pub project_health-step :
    (q : Text) (cb : CircuitBreaker) (op : Op)
    → project_health q (step cb op) ≡ (
        if text_eq (subject op) q
        then settle cb.threshold cb.timeout_secs op (project_health q cb)
        else project_health q cb)
unfolding step
project_health-step q cb (available now p) = project_health-is_available now p q cb
project_health-step q cb (success p) = project_health-record_success p q cb
project_health-step q cb (failure now p) = project_health-record_failure now p q cb

pub threshold-step :
    (cb : CircuitBreaker) (op : Op)
    → ((step cb op).threshold ≡ cb.threshold) × ((step cb op).timeout_secs ≡ cb.timeout_secs)
unfolding step is_available record_success record_failure move_state
threshold-step cb (available now p) = ground arith
threshold-step cb (success p) = ground arith
threshold-step cb (failure now p) = ground arith

pub threshold-run : (cb : CircuitBreaker) (ops : List Op) → (run cb ops).threshold ≡ cb.threshold
unfolding run
threshold-run cb [] = refl
threshold-run cb (op ∷ ops) = threshold-run (step cb op) ops ∙ (threshold-step cb op).0
