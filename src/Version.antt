-- ===== src/Version.antt =====
-- version.rs
pub mod Capability
pub mod Shape
pub mod ShapeCapability
pub mod Required
pub mod Facts
pub mod Identity
pub mod Reference
pub mod Catalog
pub mod Observed
