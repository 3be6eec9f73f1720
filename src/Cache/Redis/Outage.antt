-- ===== src/Cache/Redis/Outage.antt =====
-- What the cache gives while Redis answers, and while it does not.
use Prim.Native.Nat.{max}
use harbor_router.Common.{
  ℕ, ◌+◌, ◌*◌, ◌/◌, ◌≡◌, refl, ap, ◌∙◌, true, Option, none, some, ltb, if◌then◌else◌, Text,
  text_eq_self, ok, err,
}
use harbor_router.Cache.{CacheBackend}
use harbor_router.Cache.Lawful.{IsLawful}
use harbor_router.Cache.Redis.{Connection, prefixed, redis_cache, redis_get, redis_set_secs}

-- What Redis promises when a SETEX succeeds, and a later GET of the key is answered.
abbrev pub IsRedis : Connection → Type 0
IsRedis r =
    (now later : ℕ) (k v : Text) (secs : ℕ) (s : r.State) (found : Option Text)
    → (r.set_ex now k v secs s).0 ≡ true
    → (r.get later k (r.set_ex now k v secs s).1).0 ≡ ok found
    → found ≡ (if ltb later (now + secs * 1000) then some v else none)

module _ (r : Connection) (fallback : CacheBackend) (prefix : Text) (ttl_secs : ℕ) (now later : ℕ)
    (key value : Text) (ttl : ℕ) (conn : r.State) (local : fallback.State) where
  abbrev cache : CacheBackend
  cache = redis_cache r fallback prefix ttl_secs

  abbrev written : cache.State
  written = cache.set_with_ttl now key value ttl (conn, local)

  -- When Redis takes a value and answers the later read, and keeps what it takes for the
  -- seconds that it is told, the cache gives the value for the whole seconds of its lifetime,
  -- for one second at least.
  pub redis_cache-answered :
      (found : Option Text)
      → IsRedis r
      → (r.set_ex now (prefixed prefix key) value (max (ttl / 1000) 1) conn).0 ≡ true
      → (r.get later (prefixed prefix key) written.0).0 ≡ ok found
      → (cache.get later key written).0
        ≡ (if ltb later (now + max (ttl / 1000) 1 * 1000) then some value else none)
  unfolding redis_get redis_set_secs
  redis_cache-answered found law up answers =
      rw (answers, redis_get)
        (law now later (prefixed prefix key) value (max (ttl / 1000) 1) conn found up
          (rw up at answers))

  -- When Redis does not answer a read, a value that was written with whatever lifetime is given
  -- for the lifetime of the local cache, where the local cache is lawful.
  pub redis_cache-outage :
      (fallback_ttl : ℕ) (e : Text)
      → IsLawful fallback fallback_ttl
      → (r.get later (prefixed prefix key) written.0).0 ≡ err e
      → (cache.get later key written).0
        ≡ (if ltb later (now + fallback_ttl) then some value else none)
  unfolding redis_get redis_set_secs
  redis_cache-outage fallback_ttl e kept down =
      rw (down, redis_get)
        (ap (λ s. (fallback.get later key s).0) (kept.set_default now key value local)
          ∙ kept.get-set_with_ttl now later key key value fallback_ttl local
          ∙ rw (text_eq_self key) refl)
