-- ===== src/Cache/Redis.antt =====
-- `RedisCache` of src/cache.rs. The connection is a parameter whose calls may fail; the local cache
-- behind it is a Moka cache, which keeps every entry for its own lifetime.
pub mod Outage
use Prim.Native.Nat.{max}
use harbor_router.Common.{
  ℕ, ◌+◌, ◌/◌, ◌++◌, Bool, true, false, Option, List, ◌∷◌, if◌then◌else◌, is_empty, Text, codes,
  Outcome, ok, err,
}
use harbor_router.Cache.{CacheBackend}

-- GET, SETEX (in seconds) and DEL, each with the connection after it, and the reconnection through the
-- sentinel.
pub record Connection : Type 1 where
  pub State : Type 0
  pub get : ℕ → Text → State → Outcome (Option Text) × State
  pub set_ex : ℕ → Text → Text → ℕ → State → Bool × State
  pub del : ℕ → Text → State → Bool × State
  pub try_reconnect : ℕ → State → State

unfoldable pub prefixed : Text → Text → Text
prefixed prefix key = if is_empty prefix then key else prefix ++ b':' ∷ key

module _ (r : Connection) (fallback : CacheBackend) (prefix : Text) (ttl_secs : ℕ) where
  abbrev pub RedisState : Type 0
  RedisState = r.State × fallback.State

  abbrev pub after_call : ℕ → Bool × r.State → r.State
  after_call now (succeeded, conn) = if succeeded then conn else r.try_reconnect now conn

  unfoldable pub redis_get : ℕ → Text → RedisState → Option Text × RedisState
  redis_get now key (conn, local) =
      let (answer, conn') = r.get now (prefixed prefix key) conn in
      let (kept, local') = fallback.get now key local in
      elim answer [
        | ok v ↦ (v, (conn', local))
        | err e ↦ (kept, (r.try_reconnect now conn', local'))
      ]

  unfoldable pub redis_set_secs : ℕ → Text → Text → ℕ → RedisState → RedisState
  redis_set_secs now key value secs (conn, local) = (
    after_call now (r.set_ex now (prefixed prefix key) value secs conn),
    fallback.set now key value local,
  )

  unfoldable pub redis_delete : ℕ → Text → RedisState → RedisState
  redis_delete now key (conn, local) =
      (after_call now (r.del now (prefixed prefix key) conn), fallback.delete now key local)

  abbrev pub redis_cache : CacheBackend
  redis_cache = record {
    State = RedisState;
    get = λ now key s. redis_get now key s;
    set = λ now key value s. redis_set_secs now key value ttl_secs s;
    set_with_ttl = λ now key value ttl s. redis_set_secs now key value (max (ttl / 1000) 1) s;
    delete = λ now key s. redis_delete now key s;
  }
