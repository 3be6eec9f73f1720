-- ===== src/Resolver/World.antt =====
-- What the resolver's operations read and change. The network, the clock and the executor of futures
-- are not the program's: an `Environment` gives, for each moment, the answer to a request, the time,
-- and the order in which futures complete. Moments are counted by `tick`, which every awaited
-- answer moves on.
use harbor_router.Common.{◌+◌, Option, ℕ, ◌/◌, ◌++◌, List, Text, codes, Outcome, ok, err}
use harbor_router.Breaker.{CircuitBreaker}
use harbor_router.Cache.{CacheBackend}

-- `ResolveResult`. A header has a lower-case name.
pub record Response : Type 0 where
  pub project : Text
  pub status : ℕ
  pub headers : List (Text × Text)
  pub body : Text

pub data Method : Type 0 where
  get head : Method

pub record Request : Type 0 where
  pub method : Method
  pub url : Text
  pub authorization : Text
  pub accept : List Text

-- What the HTTP client makes of a request: `send` fails, the body cannot be read, or an answer.
pub data Reply : Type 0 where
  failed : Text → Reply
  broken : ℕ → Text → Reply
  replied : ℕ → List (Text × Text) → Text → Reply

-- How one future of a fan-out ends: its timeout elapses, or the request is over.
pub data Probe : Type 0 where
  elapsed : Probe
  answered : Reply → Probe

-- What the loop over the results of a fan-out waits for: the next future that completes, or the
-- deadline of the grace period, if one is set.
pub data Turn : Type 0 where
  completed : Text → Probe → Turn
  deadline : Turn

-- How a caller of `singleflight` gets on: it leads, or it follows a leader that another task is. A
-- follower finds the result, waits for it in vain, or wakes up to a channel that is closed or changed.
pub data Role : Type 0 where
  leader : Role
  found_result : Outcome Response → Role
  timed_out : Role
  channel_dropped : Role
  woken : Option (Outcome Response) → Role

pub record Environment : Type 0 where
  pub time : ℕ → ℕ  -- milliseconds since the epoch
  pub reply : ℕ → Request → Reply
  pub stream : ℕ → Request → Outcome (ℕ × List (Text × Text) × Text)  -- a reply whose body is not read
  pub complete : ℕ → List Text → List Turn
  pub join : ℕ → Text → Role

-- The fields of `Resolver` that never change; durations are in milliseconds.
pub record Settings : Type 0 where
  pub harbor_url : Text
  pub service_auth : Text
  pub max_fanout : ℕ
  pub negative_cache_ttl : ℕ
  pub cache_ttl : ℕ
  pub stale_while_revalidate : ℕ
  pub retry_max_attempts : ℕ
  pub retry_base_delay : ℕ
  pub cache_warmup_top_n : ℕ

-- A background refresh that was spawned.
pub record Refresh : Type 0 where
  pub image : Text
  pub reference : Text
  pub accept : List Text
  pub cache_key : Text

-- The shared state, the refreshes that were spawned and not yet run, and the delays that were slept, the newest first.
pub record World (c : CacheBackend) : Type 0 where
  pub cache : c.State
  pub breaker : CircuitBreaker
  pub projects : List Text
  pub tick : ℕ
  pub slept : List ℕ
  pub spawned : List Refresh

abbrev pub now_ms : {c : CacheBackend} → Environment → World c → ℕ
now_ms env w = env.time w.tick

abbrev pub now_epoch_secs : {c : CacheBackend} → Environment → World c → ℕ
now_epoch_secs env w = env.time w.tick / 1000

-- The calls of the cache. Each is awaited.
abbrev pub cache_get : {c : CacheBackend} → Environment → Text → World c → Option Text × World c
cache_get {c} env key w =
    let (value, cache) = c.get (now_ms env w) key w.cache in
    (value, record w { cache = cache; tick = w.tick + 1 })

abbrev pub cache_set : {c : CacheBackend} → Environment → Text → Text → World c → World c
cache_set {c} env key value w = record w {
  cache = c.set (now_ms env w) key value w.cache;
  tick = w.tick + 1;
}

abbrev pub cache_set_with_ttl :
    {c : CacheBackend} → Environment → Text → Text → ℕ → World c → World c
cache_set_with_ttl {c} env key value ttl w = record w {
  cache = c.set_with_ttl (now_ms env w) key value ttl w.cache;
  tick = w.tick + 1;
}

abbrev pub cache_delete : {c : CacheBackend} → Environment → Text → World c → World c
cache_delete {c} env key w = record w {
  cache = c.delete (now_ms env w) key w.cache;
  tick = w.tick + 1;
}

abbrev pub request_error : Text → Text → Text
request_error project e = codes "request to " ++ (project ++ (codes ": " ++ e))

abbrev pub body_error : Text → Text → Text
body_error project e = codes "read body from " ++ (project ++ (codes ": " ++ e))

-- The end of `fetch_manifest` and of `fetch_tags`.
unfoldable pub of_reply : Text → Reply → Outcome Response
of_reply project (failed e) = err (request_error project e)
of_reply project (broken status e) = err (body_error project e)
of_reply project (replied status headers body) =
    ok (record { project = project; status = status; headers = headers; body = body })

abbrev pub unsafe_project : Text → Text
unsafe_project project = codes "refusing unsafe project name in URL construction: " ++ project
