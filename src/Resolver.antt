-- ===== src/Resolver.antt =====
-- src/resolver.rs: finding the project that has a manifest.
pub mod Status
pub mod CacheValue
pub mod Accept
pub mod World
pub mod Fetch
pub mod Fanout
pub mod Manifest
pub mod Flight
pub mod Tags
pub mod Warmup
pub mod Examples
mod Scenarios
