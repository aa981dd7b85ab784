-- ===== src/Eac/Manager/Fleet/Refinement.antt =====
-- The robot manager for iiQKA keeps its promise to the fleet.
use kuka_drivers.Core.Services.{Services}
use kuka_drivers.Eac.Manager.Fleet.{Fleet}
