-- ===== src/Resolver/Fanout.antt =====
-- `parallel_lookup` of src/resolver.rs: one probe for each available project, and the loop over the
-- probes in the order in which they complete. (A grace deadline is set exactly when a fallback is.)
pub mod Outcomes
pub mod Lookup
pub mod Messages
pub mod Verdicts
pub mod Finds
use harbor_router.Common.{
  ℕ, ◌+◌, ◌/◌, ◌++◌, Bool, true, false, not, ◌&&◌, ◌||◌, Option, none, some, List, [], ◌∷◌, leb,
  ltb, ◌==◌, if◌then◌else◌, is_empty, all, length, take, Text, codes, lookup, Outcome, ok, err,
}
use harbor_router.Breaker.{CircuitBreaker, is_available, record_success, record_failure}
use harbor_router.Validation.{is_safe_project_name}
use harbor_router.Cache.{CacheBackend}
use harbor_router.Resolver.Status.{
  is_client_error_status, should_record_transport_failure, not_found_tail,
}
use harbor_router.Resolver.Accept.{content_type_matches}
use harbor_router.Resolver.World.{
  Response, Probe, elapsed, answered, Turn, completed, deadline, Environment, Settings, World,
  now_epoch_secs, of_reply, unsafe_project,
}

-- `HeaderValue::to_str`: only visible ASCII, spaces and tabs.
abbrev pub is_visible_ascii : ℕ → Bool
is_visible_ascii b = (leb 32 b && ltb b 127) || b == 9

unfoldable pub content_type : Response → Text
content_type r = elim (lookup (codes "content-type") r.headers) [
  | none ↦ []
  | some v ↦ if all is_visible_ascii v then v else []
]

-- The projects to which no open circuit denies a probe, and the breaker after the questions.
unfoldable pub available_projects : ℕ → List Text → CircuitBreaker → List Text × CircuitBreaker
available_projects now [] cb = ([], cb)
available_projects now (p ∷ ps) cb =
    let (yes_or_no, cb') = is_available now p cb in
    let (rest, cb'') = available_projects now ps cb' in (if yes_or_no then p ∷ rest else rest, cb'')

-- What a probe's future hands to the loop. (The check on the name comes before the request, so an
-- unsafe name never times out.)
unfoldable pub probe_result : Text → Probe → Outcome Response
probe_result project elapsed =
    if is_safe_project_name project
    then err (codes "timeout probing " ++ project)
    else err (unsafe_project project)
probe_result project (answered reply) =
    if is_safe_project_name project then of_reply project reply else err (unsafe_project project)

-- What a probe's future tells the circuit breaker.
unfoldable pub observe : ℕ → Text → Outcome Response → CircuitBreaker → CircuitBreaker
observe now project (ok r) cb =
    if r.status == 200
    then record_success project cb
    else if is_client_error_status r.status
    then cb
    else record_failure now project cb
observe now project (err e) cb =
    if should_record_transport_failure e then record_failure now project cb else cb

-- How the loop ends.
pub data End : Type 0 where
  found : Response → End
  fallen_back : Response → End
  all_failed : Text → End
  nowhere : End

abbrev pub end_of_stream : Option Response → Option Text → End
end_of_stream (some r) last_err = fallen_back r
end_of_stream none (some e) = all_failed e
end_of_stream none none = nowhere

unfoldable pub is_accepted : List Text → Response → Bool
is_accepted accept r =
    r.status == 200 && (is_empty accept || content_type_matches (content_type r) accept)

-- The response of an outcome that ends the loop.
abbrev pub winner : List Text → Outcome Response → Option Response
winner accept (ok r) = if is_accepted accept r then some r else none
winner accept (err e) = none

abbrev pub next_fallback : Outcome Response → Option Response → Option Response
next_fallback (ok r) none = if r.status == 200 then some r else none
next_fallback _ fallback = fallback

abbrev pub next_error : Outcome Response → Option Text → Option Text
next_error (err e) last_err = some e
next_error (ok r) last_err = last_err

-- The world after a probe is over.
abbrev pub note : {c : CacheBackend} → Environment → Text → Outcome Response → World c → World c
note env project r w = record w {
  breaker = observe (now_epoch_secs env w) project r w.breaker;
  tick = w.tick + 1;
}

module _ {c : CacheBackend} (env : Environment) (accept : List Text) where
  unfoldable pub fan_loop : List Turn → Option Response → Option Text → World c → End × World c
  fan_loop [] fallback last_err w = (end_of_stream fallback last_err, w)
  fan_loop (deadline ∷ turns) fallback last_err w =
      let rest = fan_loop turns fallback last_err w in
      elim fallback [ none ↦ rest | some r ↦ (fallen_back r, w) ]
  fan_loop (completed project probe ∷ turns) fallback last_err w =
      let r = probe_result project probe in
      let w' = note env project r w in
      let rest = fan_loop turns (next_fallback r fallback) (next_error r last_err) w' in
      elim (winner accept r) [ none ↦ rest | some best ↦ (found best, w') ]

abbrev pub not_found_error : Text → Text → Text
not_found_error image reference =
    codes "image " ++ (image ++ (codes ":" ++ (reference ++ (codes " " ++ not_found_tail))))

unfoldable pub outcome_of_end : Text → Text → End → Outcome Response
outcome_of_end image reference (found r) = ok r
outcome_of_end image reference (fallen_back r) = ok r
outcome_of_end image reference (all_failed e) = err (codes "all projects failed, last error: " ++ e)
outcome_of_end image reference nowhere = err (not_found_error image reference)

unfoldable pub parallel_lookup :
    {c : CacheBackend}
    → Settings
    → Environment
    → (image reference : Text) → List Text
    → World c
    → Outcome Response × World c
unfolding fan_loop
parallel_lookup settings env image reference accept w =
    if is_empty w.projects
    then (err (codes "no proxy-cache projects discovered"), w)
    else let projects =
        if ltb settings.max_fanout (length w.projects)
        then take settings.max_fanout w.projects
        else w.projects in
      let (futures, breaker) = available_projects (now_epoch_secs env w) projects w.breaker in
      let w' = record w { breaker = breaker } in
      let (end, w'') = fan_loop env accept (env.complete w.tick futures) none none w' in
      if is_empty futures
      then (err (codes "no available proxy-cache projects (all circuits open)"), w')
      else (outcome_of_end image reference end, w'')
