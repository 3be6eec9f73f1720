-- ===== src/Resolver/Fanout/Lookup.antt =====
-- What `parallel_lookup` answers, and which projects it asks.
use mathlib.Core.List.{Memᴰ}
use harbor_router.Common.{
  ℕ, ◌≤◌, ◌≡◌, ◌⊎◌, inl, inr, Bool, true, false, none, List, [], ◌∷◌, arith, ltb, length, take,
  length-take, if◌then◌else◌, Bool-cases, is_empty, Text, codes, ok, err,
}
use harbor_router.Validation.{is_safe_project_name}
use harbor_router.Breaker.{CircuitBreaker, is_available}
use harbor_router.Cache.{CacheBackend}
use harbor_router.Resolver.World.{
  Response, Probe, elapsed, answered, failed, broken, replied, Turn, completed, Environment,
  Settings, World, now_epoch_secs, of_reply,
}
use harbor_router.Resolver.Fanout.{
  available_projects, probe_result, End, fan_loop, outcome_of_end, parallel_lookup,
}

-- The executor completes only futures that it was given.
abbrev pub IsExecutor : Environment → Type 0
IsExecutor env =
    (tick : ℕ) (futures : List Text) (project : Text) (probe : Probe)
    → Memᴰ (completed project probe) (env.complete tick futures)
    → Memᴰ project futures

module _ {c : CacheBackend} (settings : Settings) (env : Environment) (w : World c) where
  -- The projects that the limit on the fan-out leaves.
  abbrev pub candidates : List Text
  candidates =
      if ltb settings.max_fanout (length w.projects)
      then take settings.max_fanout w.projects
      else w.projects

  abbrev pub futures : List Text
  futures = (available_projects (now_epoch_secs env w) candidates w.breaker).0

  abbrev pub turns : List Turn
  turns = env.complete w.tick futures

  pub length-candidates : length candidates ≤ settings.max_fanout
  length-candidates = ground (arith, length-take {0} settings.max_fanout w.projects)

  pub length-candidates_projects : length candidates ≤ length w.projects
  length-candidates_projects = ground (arith, length-take {0} settings.max_fanout w.projects)

pub probe_result-ok :
    (project : Text) (probe : Probe) (r : Response)
    → probe_result project probe ≡ ok r
    → (r.project ≡ project) × (is_safe_project_name project ≡ true)
unfolding probe_result of_reply
probe_result-ok project elapsed r h = absurd (ground arith)
probe_result-ok project (answered (failed e)) r h = absurd (ground arith)
probe_result-ok project (answered (broken s e)) r h = absurd (ground arith)
probe_result-ok project (answered (replied s hs b)) r h = (ground arith, ground arith)

mem_of_choice :
    (b : Bool) (p q : Text) (rest ps : List Text)
    → (Memᴰ p rest → Memᴰ p ps)
    → Memᴰ p (if b then q ∷ rest else rest)
    → Memᴰ p (q ∷ ps)
mem_of_choice true p q rest ps keep (Memᴰ.head e) = Memᴰ.head e
mem_of_choice true p q rest ps keep (Memᴰ.tail m) = Memᴰ.tail (keep m)
mem_of_choice false p q rest ps keep m = Memᴰ.tail (keep m)

pub mem-available_projects :
    (now : ℕ) (p : Text) (ps : List Text) (cb : CircuitBreaker)
    → Memᴰ p (available_projects now ps cb).0
    → Memᴰ p ps
unfolding available_projects
mem-available_projects now p [] cb m = m
mem-available_projects now p (q ∷ ps) cb m =
    let (yes_or_no, cb') = is_available now q cb in
    mem_of_choice yes_or_no p q (available_projects now ps cb').0 ps
      (mem-available_projects now p ps cb') m

pub length-available_projects :
    (now : ℕ) (ps : List Text) (cb : CircuitBreaker)
    → length (available_projects now ps cb).0 ≤ length ps
unfolding available_projects
length-available_projects now [] cb = omega arith
length-available_projects now (q ∷ ps) cb =
    ground (arith, length-available_projects now ps (is_available now q cb).1)

abbrev pub none_discovered : Text
none_discovered = codes "no proxy-cache projects discovered"

abbrev pub all_circuits_open : Text
all_circuits_open = codes "no available proxy-cache projects (all circuits open)"

module _ {c : CacheBackend} (settings : Settings) (env : Environment) (image reference : Text)
    (accept : List Text) (w : World c) where
  abbrev pub after_questions : World c
  after_questions = record w {
    breaker = (available_projects (now_epoch_secs env w) (candidates settings env w) w.breaker).1;
  }

  abbrev pub end_of_lookup : End
  end_of_lookup = (fan_loop env accept (turns settings env w) none none after_questions).0

  -- The three ways through `parallel_lookup`.
  pub parallel_lookup-cases :
      ((is_empty w.projects ≡ true)
        × ((parallel_lookup settings env image reference accept w).0 ≡ err none_discovered))
      ⊎ ((is_empty (futures settings env w) ≡ true)
          × ((parallel_lookup settings env image reference accept w).0 ≡ err all_circuits_open))
      ⊎ ((is_empty w.projects ≡ false)
          × (is_empty (futures settings env w) ≡ false)
          × ((parallel_lookup settings env image reference accept w).0
              ≡ outcome_of_end image reference end_of_lookup))
  unfolding parallel_lookup
  parallel_lookup-cases = elim (Bool-cases (is_empty w.projects)) [
    | inl empty ↦ inl (empty, rw empty)
    | inr some_project ↦ elim (Bool-cases (is_empty (futures settings env w))) [
      | inl shut ↦ inr (inl (shut, rw (some_project, shut)))
      | inr open_one ↦ inr (inr (some_project, open_one, rw (some_project, open_one)))
    ]
  ]
