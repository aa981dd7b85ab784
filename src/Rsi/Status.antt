-- ===== src/Rsi/Status.antt =====
-- kuka_rsi_driver/include/kuka_rsi_driver/robot_status_manager.hpp, and the loops of
-- src/hardware_interface_rsi_base.cpp that wait for the drives.
--
-- The status that the robot last reported is written by another thread: it is read off the world,
-- `actual`, while the copy that serves as state interfaces is kept. The values are doubles made of
-- integers, and here they are those integers. Times are in microseconds.
pub mod Ends
use kuka_drivers.Prelude.{
  Bool, Option, false, if◌then◌else◌, ltb, none, not, some, suc, true, zero, ℕ, ◌-◌, ◌==◌,
}
use kuka_drivers.Core.Modes.{u8}
use kuka_drivers.Core.Clock.{Clock}

pub record StatusInterfaces : Type 0 where
  pub control_mode : ℕ
  pub cycle_time : ℕ
  pub drives_powered : ℕ
  pub emergency_stop : ℕ
  pub guard_stop : ℕ
  pub in_motion : ℕ
  pub motion_possible : ℕ
  pub operation_mode : ℕ
  pub robot_stopped : ℕ

abbrev pub as_flag : ℕ → Bool
as_flag n = not (n == 0)

unfoldable pub drives_are_powered : StatusInterfaces → Bool
drives_are_powered status = as_flag status.drives_powered

unfoldable pub is_emergency_stop_active : StatusInterfaces → Bool
is_emergency_stop_active status = as_flag status.emergency_stop

unfoldable pub is_motion_possible : StatusInterfaces → Bool
is_motion_possible status = as_flag status.motion_possible

-- `ext` is OperationMode::EXT of the robot library.
unfoldable pub is_krc_in_ext_mode : ℕ → StatusInterfaces → Bool
is_krc_in_ext_mode ext status = u8 status.operation_mode == u8 ext

abbrev pub drives_powered_timeout : ℕ
drives_powered_timeout = 3000000

abbrev pub drives_powered_check_interval : ℕ
drives_powered_check_interval = 100000

-- After 31 sleeps of 100 ms more than 3 s have passed, and the round after them sees it.
abbrev pub drives_fuel : ℕ
drives_fuel = 32

module _ {W : Type 0} (clock : Clock W) (actual : W → StatusInterfaces) where
  open clock use {now, sleep}

  -- The loop until the drives are on, or off: the status kept, the world, and whether it ended
  -- before the time-out. `none` means that the fuel ran out.
  unfoldable pub wait_for_drives :
      ℕ → Bool → ℕ → StatusInterfaces → W → Option (StatusInterfaces × W × Bool)
  wait_for_drives zero on start status w = none
  wait_for_drives (suc fuel) on start status w =
      let rest = wait_for_drives fuel on start (actual w) (sleep drives_powered_check_interval w) in
      let there = if on then drives_are_powered status else not (drives_are_powered status) in
      if there
      then some (status, w, true)
      else if ltb drives_powered_timeout (now w - start)
      then some (status, w, false)
      else rest
