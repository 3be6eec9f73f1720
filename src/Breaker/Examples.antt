-- ===== src/Breaker/Examples.antt =====
-- The breaker's theorems at concrete calls, and runs of the breaker.
use harbor_router.Common.{
  ◌-◌, ◌≡◌, refl, true, false, List, [], ◌∷◌, arith, ◌==◌, leb, ◌&&◌, not, Text, codes, text_eq,
  lookup, insert,
}
use harbor_router.Breaker.{
  state_closed, state_open, state_half_open, ProjectHealth, new, project_health, is_available,
  record_success, record_failure, move_state,
}
use harbor_router.Breaker.History.{Tracks, run-Tracks}
use harbor_router.Breaker.Calls.{Op, available, success, failure, step, run, streak, settle}
use harbor_router.Breaker.Cooldown.{IsCooling, record_failure-IsCooling}
use harbor_router.Breaker.Threads.Atoms.{
  reset_failures, add_failure, check_state, answered, finished, solo, interleave,
}
use harbor_router.Breaker.Threads.Solo.{solo-eq-settle}
use harbor_router.Breaker.Threads.Races.{late_reset, late_reset-half_open}
use harbor_router.Breaker.Refines.{answers, spec_run, answers-refines}
use harbor_router.Breaker.{default_health}
use harbor_router.Common.{none, some}

abbrev hub : Text
hub = codes "dockerhub"

abbrev quay : Text
quay = codes "quay"

-- Two failures of one project, with a success of another between them.
abbrev two_failures : List Op
two_failures = failure 100 hub ∷ success quay ∷ failure 101 hub ∷ []

breaker : Unit {0}
unfolding run step is_available record_success record_failure move_state new project_health lookup
    insert text_eq streak
breaker = tt

opens_at_threshold :
    ((project_health hub (run (new 2 30) two_failures)).state ≡ state_open)
    × ((project_health quay (run (new 2 30) two_failures)).state ≡ state_closed)
    × ((is_available 120 hub (run (new 2 30) two_failures)).0 ≡ false)
    × ((is_available 131 hub (run (new 2 30) two_failures)).0 ≡ true)
unfolding breaker
opens_at_threshold = (refl, refl, refl, refl)

run-Tracks_example :
    Tracks 2 (streak hub 0 two_failures) (project_health hub (run (new 2 30) two_failures))
run-Tracks_example = run-Tracks 2 30 two_failures hub (omega arith)

record_failure-IsCooling_example :
    IsCooling 101 hub (record_failure 101 hub (run (new 2 30) (failure 100 hub ∷ [])))
unfolding streak text_eq
record_failure-IsCooling_example =
    record_failure-IsCooling 2 30 101 (failure 100 hub ∷ []) hub (omega arith) (omega arith)

abbrev nearly : ProjectHealth
nearly = record { consecutive_failures = 1; last_failure_epoch = 7; state = state_closed }

solo-eq-settle_example :
    (solo 2 30 5 (check_state 50) nearly ≡ (
      answered (not (nearly.state == state_open && not (leb 30 (50 - nearly.last_failure_epoch)))),
      settle 2 30 (available 50 hub) nearly,
    ))
    × (solo 2 30 5 reset_failures nearly ≡ (finished, settle 2 30 (success hub) nearly))
    × (solo 2 30 5 (add_failure 50) nearly ≡ (finished, settle 2 30 (failure 50 hub) nearly))
solo-eq-settle_example = solo-eq-settle 2 30 50 hub nearly

late_reset-half_open_example :
    ((interleave 2 30 late_reset (reset_failures ∷ add_failure 9 ∷ []) nearly).1
      ≡ record { consecutive_failures = 0; last_failure_epoch = 9; state = state_open })
    × (settle 2 30 (failure 40 hub) (
          settle 2 30
            (available 39 hub)
            (interleave 2 30 late_reset (reset_failures ∷ add_failure 9 ∷ []) nearly).1)
        ≡ record { consecutive_failures = 1; last_failure_epoch = 40; state = state_half_open })
late_reset-half_open_example =
    late_reset-half_open 2 30 9 39 40 hub nearly (omega arith) (omega arith) refl refl (omega arith)

-- Two failures open the breaker of a project; after ten seconds it is asked for again.
abbrev asked_again : List Op
asked_again =
    failure 100 (codes "hub")
    ∷ failure 101 (codes "hub")
    ∷ available 105 (codes "hub")
    ∷ available 105 (codes "quay")
    ∷ available 111 (codes "hub")
    ∷ []

asked_again-answers :
    answers (new 2 10) asked_again ≡ none ∷ none ∷ some false ∷ some true ∷ some true ∷ []
unfolding new step is_available record_failure move_state project_health lookup insert text_eq
asked_again-answers = refl

answers-refines_example :
    answers (new 2 10) asked_again
    ≡ spec_run (new 2 10).threshold 10 (λ p. default_health) asked_again
answers-refines_example = answers-refines 2 10 asked_again
