-- ===== src/Http.antt =====
-- The package http: typed handlers over echo, and how errors become responses (http/http.go),
-- with its middleware and request helpers.
pub mod Validation
pub mod ErrorMap
pub mod Wrap
pub mod Params
pub mod Idempotent
pub mod Common
pub mod RequestLog
pub mod Schema
pub mod Lifecycle
pub mod Server
mod Skips
mod Tags
mod Stored
mod Examples
