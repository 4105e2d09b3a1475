-- ===== src/Warehouse/Schemas.antt =====
-- warehouse/schemas: the rows of each layer.
pub mod Bronze
pub mod Silver
pub mod Quarantine
pub mod Gold
pub mod Raising
pub mod Errors
pub mod RoundTrips
