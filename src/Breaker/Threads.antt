-- ===== src/Breaker/Threads.antt =====
-- The three operations of one project's breaker as the atomic loads, stores and exchanges that
-- src/circuit_breaker.rs makes, so that threads may interleave between any two of them. (The values of
-- the gauge and the counters are left out, as no branch reads them; the load for the gauge is not.)
pub mod Atoms
pub mod Solo
pub mod Races
