-- ===== src/Contracts.antt =====
-- common/contracts: the records that pass between the modules of the platform.
pub mod Events
pub mod Validation
pub mod Gold
