-- ===== src/Controllers.antt =====
-- The ROS 2 controllers of the repository (controllers/).
pub mod Events
pub mod Names
pub mod Lending
pub mod Kss
pub mod Mode
pub mod FriConfig
pub mod FriState
pub mod Impedance
