-- ===== src/Config.antt =====
-- src/config.rs: the configuration, read from the environment of the process.
pub mod Floats
pub mod Durations
pub mod Env
pub mod Load
pub mod Urls
mod Examples
