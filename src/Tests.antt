-- ===== src/Tests.antt =====
-- The theorems at concrete inputs, and runs of the definitions.
mod Data
mod Runtime
mod Rules
mod Tables
mod Stages
mod Windows
mod Upgrades
mod Processes
mod Connectors
mod Publications
