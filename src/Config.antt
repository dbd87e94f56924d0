-- ===== src/Config.antt =====
-- The package config: extractors that fill a configuration one after another.
pub mod Parser
pub mod Flags
mod Examples
