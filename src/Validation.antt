-- ===== src/Validation.antt =====
-- processing/validation: the trust boundary. Rules, and the engine that runs them all.
pub mod Rules
pub mod Engine
pub mod Outcomes
pub mod Trustworthy
pub mod Checks
pub mod Decision
pub mod Collect
