-- ===== src/Rsi/Exports.antt =====
-- The interfaces that the hardware interfaces for RSI export: export_state_interfaces and
-- export_command_interfaces of kuka_rsi_driver/src/hardware_interface_rsi_base.cpp and of the ones
-- for EKI and mxAutomation, and RegisterStateInterfaces of robot_status_manager.hpp.
--
-- `none` is a read past the end of a vector.
use kuka_drivers.Prelude.{List, Option, String, [], get_elem?, some, suc, ℕ, ◌++◌, ◌>>=◌, ◌∷◌}
use kuka_drivers.Core.Interfaces.{
  Exported, config_prefix, control_mode_name, cycle_time_name, export_gpios, hw_if_effort,
  hw_if_position, hw_if_velocity, integer, interpolation_count_name, real, server_state_name,
  state_prefix,
}
use kuka_drivers.Rsi.Status.{StatusInterfaces}
use kuka_drivers.Rsi.Base.{RsiHardware}
use Prim.Native.String.{◌++◌ as append}

-- What the exports read of `info_`, and the prefix of the interfaces.
pub record Described : Type 0 where
  pub joint_names : List String
  pub gpio_state_names : List String
  pub gpio_command_names : List String
  pub interface_prefix : String

module _ {Double : Type 0} where
  -- The loop over the joints, from index `i` on.
  unfoldable pub export_joints :
      ℕ → List Double → List Double → List Double → List String → Option (List (Exported Double))
  export_joints i positions velocities torques [] = some []
  export_joints i positions velocities torques (name ∷ names) = do
    position ← get_elem? positions i
    velocity ← get_elem? velocities i
    torque ← get_elem? torques i
    rest ← export_joints (suc i) positions velocities torques names
    some (
        (name, hw_if_position, real position)
        ∷ (name, hw_if_velocity, real velocity)
        ∷ (name, hw_if_effort, real torque)
        ∷ rest)

  unfoldable pub export_base_states :
      Described → RsiHardware Double → Option (List (Exported Double))
  unfolding export_joints export_gpios
  export_base_states described hw = do
    joints ←
        export_joints 0 hw.position_states hw.velocity_states hw.torque_states described.joint_names
    gpios ← export_gpios 0 hw.gpio_states described.gpio_state_names
    some (
        joints
        ++ (gpios
            ++ (
              append described.interface_prefix state_prefix,
              server_state_name,
              integer hw.server_state,
            )
              ∷ []))

  -- The count is the last that the controller has written.
  unfoldable pub export_base_commands :
      Described → ℕ → RsiHardware Double → Option (List (Exported Double))
  unfolding export_joints export_gpios
  export_base_commands described count hw = do
    joints ←
        export_joints 0 hw.position_commands hw.velocity_commands hw.torque_commands
          described.joint_names
    gpios ← export_gpios 0 hw.gpio_commands described.gpio_command_names
    some (
        joints
        ++ (gpios
            ++ (
              append described.interface_prefix config_prefix,
              interpolation_count_name,
              integer count,
            )
              ∷ []))

  -- The status, behind the name of each of its interfaces.
  unfoldable pub register_state_interfaces : StatusInterfaces → String → List (Exported Double)
  register_state_interfaces status interface_prefix =
      let group = append interface_prefix state_prefix in
      (group, control_mode_name, integer status.control_mode)
      ∷ (group, cycle_time_name, integer status.cycle_time)
      ∷ (group, "drives_powered", integer status.drives_powered)
      ∷ (group, "emergency_stop", integer status.emergency_stop)
      ∷ (group, "guard_stop", integer status.guard_stop)
      ∷ (group, "in_motion", integer status.in_motion)
      ∷ (group, "motion_possible", integer status.motion_possible)
      ∷ (group, "operation_mode", integer status.operation_mode)
      ∷ (group, "robot_stopped", integer status.robot_stopped)
      ∷ []

  -- The same for EKI and mxAutomation.
  unfoldable pub export_state_interfaces :
      Described → RsiHardware Double → Option (List (Exported Double))
  unfolding export_base_states register_state_interfaces
  export_state_interfaces described hw = do
    base ← export_base_states described hw
    some (base ++ register_state_interfaces hw.status described.interface_prefix)

  unfoldable pub export_command_interfaces :
      Described → ℕ → RsiHardware Double → Option (List (Exported Double))
  unfolding export_base_commands
  export_command_interfaces described count hw = do
    base ← export_base_commands described count hw
    let group = append described.interface_prefix config_prefix
    some (
        base
        ++ ((group, control_mode_name, integer hw.hw_control_mode_command)
            ∷ (group, cycle_time_name, integer hw.cycle_time_command)
            ∷ []))
