-- ===== src/Handlers.antt =====
-- The request handlers of src/proxy.rs. A response's body is a text, also where the router streams
-- it. The router's own responses have the header names that they are sent with, in lower case.
pub mod Headers
pub mod Blobs
pub mod Registry
pub mod Logs
mod Examples
