-- ===== src/Events.antt =====
-- The package events: listeners by the type of their events, and a pool of workers that runs them.
pub mod Handlers
pub mod Names
pub mod Pool
pub mod Lifecycle
mod Global
mod Examples
