-- ===== src/Fri.antt =====
-- The package kuka_sunrise_fri_driver.
pub mod Bytes
pub mod Connection
pub mod Manager
pub mod Address
pub mod Client
pub mod Hardware
pub mod Exports
