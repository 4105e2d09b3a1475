-- ===== src/Warehouse.antt =====
-- warehouse: the tables of the four layers, their rows, and the repositories over them.
pub mod Rows
pub mod Schemas
pub mod World
pub mod Effects
pub mod Table
pub mod Bronze
pub mod Silver
pub mod Quarantine
pub mod Gold
