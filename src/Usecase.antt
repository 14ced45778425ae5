-- ===== src/Usecase.antt =====
-- internal/usecase: the business operations, over the interfaces that this package declares.
pub mod Ports
pub mod Validation
pub mod Advisory
pub mod Machine
pub mod Codec
pub mod Baseline
pub mod Inspection
pub mod User
