-- ===== src/Metrics.antt =====
-- src/metrics.rs: the tables of the most requested images.
pub mod Popularity
pub mod Registry
pub mod Render
mod Examples
