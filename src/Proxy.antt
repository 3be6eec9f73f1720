-- ===== src/Proxy.antt =====
-- src/proxy.rs: the paths of requests, and the URLs made of them.
pub mod Paths
pub mod Urls
mod Examples
