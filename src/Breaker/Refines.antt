-- ===== src/Breaker/Refines.antt =====
-- What the breaker promises, without its map: a function from projects to records, which a call
-- changes at one project only, and the answers to the calls.
use mathlib.Core.Path.{fun_ext}
use harbor_router.Common.{
  ℕ, ◌-◌, ◌≡◌, refl, arith, Bool, not, ◌||◌, List, [], ◌∷◌, leb, ◌==◌, if◌then◌else◌, Option, none,
  some, Text, text_eq, lookup,
}
use harbor_router.Breaker.{
  state_open, ProjectHealth, CircuitBreaker, project_health, is_available, default_health, new,
}
use harbor_router.Breaker.Calls.{
  Op, available, success, failure, step, subject, settle, project_health-step, threshold-step,
}

abbrev pub Health : Type 0
Health = Text → ProjectHealth

-- The breaker as its callers see it.
abbrev pub health_of : CircuitBreaker → Health
health_of cb p = project_health p cb

abbrev pub spec_step : (threshold timeout : ℕ) → Health → Op → Health
spec_step threshold timeout health op p =
    if text_eq (subject op) p then settle threshold timeout op (health p) else health p

-- A project is asked for unless it is open and its timeout has not passed.
abbrev pub spec_answer : (timeout : ℕ) → Health → Op → Option Bool
spec_answer timeout health (available now p) =
    some (not ((health p).state == state_open) || leb timeout (now - (health p).last_failure_epoch))
spec_answer timeout health (success p) = none
spec_answer timeout health (failure now p) = none

abbrev pub spec_run : (threshold timeout : ℕ) → Health → List Op → List (Option Bool)
spec_run threshold timeout health [] = []
spec_run threshold timeout health (op ∷ ops) =
    spec_answer timeout health op
    ∷ spec_run threshold timeout (spec_step threshold timeout health op) ops

-- The answer of a call, for the one operation that has one.
abbrev pub answer_of : CircuitBreaker → Op → Option Bool
answer_of cb (available now p) = some (is_available now p cb).0
answer_of cb (success p) = none
answer_of cb (failure now p) = none

abbrev pub answers : CircuitBreaker → List Op → List (Option Bool)
answers cb [] = []
answers cb (op ∷ ops) = answer_of cb op ∷ answers (step cb op) ops

health_of-step :
    (cb : CircuitBreaker) (op : Op)
    → health_of (step cb op) ≡ spec_step cb.threshold cb.timeout_secs (health_of cb) op
health_of-step cb op = fun_ext λ p. project_health-step p cb op

answer_of-spec :
    (cb : CircuitBreaker) (op : Op)
    → answer_of cb op ≡ spec_answer cb.timeout_secs (health_of cb) op
unfolding is_available
answer_of-spec cb (available now p) = ground arith
answer_of-spec cb (success p) = refl
answer_of-spec cb (failure now p) = refl

answers-spec :
    (cb : CircuitBreaker) (ops : List Op)
    → answers cb ops ≡ spec_run cb.threshold cb.timeout_secs (health_of cb) ops
unfolding step
answers-spec cb [] = refl
answers-spec cb (op ∷ ops) =
    let (threshold, timeout) = threshold-step cb op in
    let later : answers (step cb op) ops
        ≡ spec_run cb.threshold cb.timeout_secs
            (spec_step cb.threshold cb.timeout_secs (health_of cb) op) ops =
      rw (health_of-step cb op, threshold, timeout) at (answers-spec (step cb op) ops) in
    rw (answer_of-spec cb op, later) refl

-- The answers of the breaker to any calls are those of a function from projects to records that
-- starts with the default record everywhere and changes, at each call, the record of the call's
-- project only.
pub answers-refines :
    (threshold timeout : ℕ) (ops : List Op)
    → answers (new threshold timeout) ops
      ≡ spec_run (new threshold timeout).threshold timeout (λ p. default_health) ops
unfolding new project_health lookup
answers-refines threshold timeout ops =
    let empty : health_of (new threshold timeout) ≡ (λ p. default_health) = fun_ext λ p. refl in
    rw empty at (answers-spec (new threshold timeout) ops)
