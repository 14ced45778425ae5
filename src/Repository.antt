-- ===== src/Repository.antt =====
-- internal/repository.
pub mod Session
pub mod Gorm
pub mod Schemas
pub mod Base
pub mod Machines
pub mod Baselines
pub mod Inspections
pub mod Users
