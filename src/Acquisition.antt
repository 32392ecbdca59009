-- ===== src/Acquisition.antt =====
-- src/acquisition.rs
pub mod Request
pub mod Limits
pub mod Budget
pub mod Api
pub mod Path
pub mod Selection
pub mod Http
