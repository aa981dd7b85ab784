-- ===== src/Rsi.antt =====
-- The package kuka_rsi_driver.
pub mod Hardware
pub mod Xml
pub mod Status
pub mod Base
pub mod Exports
pub mod Manager
