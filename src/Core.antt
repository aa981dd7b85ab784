-- ===== src/Core.antt =====
-- The package kuka_drivers_core.
pub mod Modes
pub mod Controllers
pub mod Validator
pub mod Clock
pub mod Interfaces
pub mod Counting
pub mod Waiting
pub mod Services
pub mod Parameters
pub mod LifecycleManager
pub mod LifecycleNode
