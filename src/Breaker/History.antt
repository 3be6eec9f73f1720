-- ===== src/Breaker/History.antt =====
-- What a breaker knows after any calls of its three operations, against a specification that only
-- reads the calls: a project's streak is the number of its failures since its last success.
use Prim.Native.Nat.{max}
use harbor_router.Common.{
  ℕ, ◌+◌, ◌≤◌, ◌<◌, ◌^◌, ◌≢◌, ◌≡◌, ◌∙◌, refl, Bool, List, [], ◌∷◌, arith, length, if◌then◌else◌,
  Bool-cases, inl, inr, Text, text_eq, lookup,
}
use harbor_router.Breaker.{
  state_closed, state_half_open, ProjectHealth, CircuitBreaker, new, project_health,
}
use harbor_router.Breaker.Calls.{
  Op, step, run, subject, next_streak, streak, settle, project_health-step, threshold-step,
  available, success, failure,
}

-- The record of a project whose streak is `n`.
pub record Tracks (threshold n : ℕ) (h : ProjectHealth) : Type 0 where
  pub counted : h.consecutive_failures ≡ n
  pub named : h.state ≤ state_half_open
  pub tripped : threshold ≤ n → h.state ≢ state_closed
  pub untripped : n < threshold → h.state ≡ state_closed

Tracks-settle :
    (threshold timeout n : ℕ) (op : Op) (h : ProjectHealth)
    → 0 < threshold
    → n + 1 < 2 ^ 32
    → Tracks threshold n h
    → Tracks threshold (next_streak op n) (settle threshold timeout op h)
unfolding settle
Tracks-settle threshold timeout n (available now p) h pos small t = ground arith
Tracks-settle threshold timeout n (success p) h pos small t = ground arith
Tracks-settle threshold timeout n (failure now p) h pos small t = ground arith

Tracks-step :
    (q : Text) (threshold n : ℕ) (cb : CircuitBreaker) (op : Op)
    → cb.threshold ≡ threshold
    → 0 < threshold
    → n + 1 < 2 ^ 32
    → Tracks threshold n (project_health q cb)
    → Tracks threshold
        (if text_eq (subject op) q then next_streak op n else n)
        (project_health q (step cb op))
Tracks-step q threshold n cb op same pos small t =
    simp (project_health-step q cb op, same)
      (elim (Bool-cases (text_eq (subject op) q)) [
        | inl mine ↦ rw mine (Tracks-settle threshold cb.timeout_secs n op _ pos small t)
        | inr other ↦ rw other t
      ])

next_streak-le : (op : Op) (n : ℕ) (b : Bool) → (if b then next_streak op n else n) ≤ n + 1
next_streak-le (available _ _) n b = ground arith
next_streak-le (success _) n b = ground arith
next_streak-le (failure _ _) n b = ground arith

pub streak-le-length : (q : Text) (n : ℕ) (ops : List Op) → streak q n ops ≤ n + length ops
unfolding streak
streak-le-length q n [] = omega arith
streak-le-length q n (op ∷ ops) = omega (
  arith,
  next_streak-le op n (text_eq (subject op) q),
  streak-le-length q (if text_eq (subject op) q then next_streak op n else n) ops,
)

Tracks-run :
    (q : Text) (threshold n : ℕ) (cb : CircuitBreaker) (ops : List Op)
    → cb.threshold ≡ threshold
    → 0 < threshold
    → n + length ops < 2 ^ 32
    → Tracks threshold n (project_health q cb)
    → Tracks threshold (streak q n ops) (project_health q (run cb ops))
unfolding run streak
Tracks-run q threshold n cb [] same pos small t = t
Tracks-run q threshold n cb (op ∷ ops) same pos small t =
    Tracks-run q threshold (if text_eq (subject op) q then next_streak op n else n) (step cb op) ops
      ((threshold-step cb op).0 ∙ same) pos
      (omega (arith, next_streak-le op n (text_eq (subject op) q)))
      (Tracks-step q threshold n cb op same pos (omega arith) t)

-- After any calls of the breaker, fewer than 2^32 of them, a project's record holds its streak of
-- failures as the count, its state is one of the three, and it is closed exactly when the streak
-- is below the threshold (a threshold of 0 counts as 1).
pub run-Tracks :
    (threshold timeout : ℕ) (ops : List Op) (q : Text)
    → length ops < 2 ^ 32
    → Tracks (max threshold 1) (streak q 0 ops) (project_health q (run (new threshold timeout) ops))
unfolding new project_health
run-Tracks threshold timeout ops q small =
    Tracks-run q (max threshold 1) 0 (new threshold timeout) ops refl (omega arith) (omega arith)
      (unfold new project_health lookup in ground arith)
