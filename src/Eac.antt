-- ===== src/Eac.antt =====
-- kuka_iiqka_eac_driver: the driver for iiQKA.
pub mod Hardware
pub mod Exports
pub mod Loop
pub mod Manager
