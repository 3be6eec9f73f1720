-- ===== src/Cache.antt =====
-- src/cache.rs: the interface that the rest of the router sees (`trait CacheBackend`). A call takes
-- the time, in milliseconds. A call to Redis may fail and change the connection, so `get` returns
-- the state too.
pub mod Lawful
pub mod Moka
pub mod Redis
pub mod Sentinel
mod Examples
use harbor_router.Common.{ℕ, Option, Text}

pub record CacheBackend : Type 1 where
  pub State : Type 0
  pub get : ℕ → Text → State → Option Text × State
  pub set : ℕ → Text → Text → State → State
  pub set_with_ttl : ℕ → Text → Text → ℕ → State → State
  pub delete : ℕ → Text → State → State
