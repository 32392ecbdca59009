-- ===== src/Target.antt =====
-- src/target.rs and src/target_modules: authored targets, their validation and their plan.
pub mod Network
pub mod Values
pub mod Publication
pub mod Container
pub mod Resource
pub mod Settings
pub mod Pools
pub mod Ports
pub mod Intent
pub mod Needs
pub mod Node
pub mod Sources
pub mod Cycles
pub mod Graph
pub mod Prerequisite
