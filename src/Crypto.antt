-- ===== src/Crypto.antt =====
-- The package crypto: keys and their texts, and encryption.
pub mod Base64
pub mod Key
pub mod Encryption
mod Examples
