-- ===== src/Producer.antt =====
-- The producer: raw payloads from an exchange, prepared as canonical events, and published.
pub mod Settings
pub mod Coinbase
pub mod Raising
pub mod Preparation
pub mod DevSource
pub mod Pipeline
