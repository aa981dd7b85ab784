-- ===== src/Fri/Exports.antt =====
-- export_state_interfaces and export_command_interfaces of
-- kuka_sunrise_fri_driver/src/hardware_interface.cpp. `none` is a read past the end of a vector.
use kuka_drivers.Prelude.{List, Option, String, [], get_elem?, map, some, suc, ℕ, ◌++◌, ◌>>=◌, ◌∷◌}
use kuka_drivers.Core.Interfaces.{
  Exported, config_prefix, control_mode_name, fri_state_prefix, hw_if_commanded_position,
  hw_if_damping, hw_if_effort, hw_if_external_torque, hw_if_position, hw_if_stiffness, integer,
  interpolation_count_name, io_prefix, real, receive_multiplier_name, send_period_name,
  server_state_name, state_prefix,
}
use kuka_drivers.Fri.Client.{FriHardware, Gpio, RobotState}
use Prim.Native.String.{◌++◌ as append}

-- What the exports read of `info_`, and the prefix of the interfaces.
pub record Described : Type 0 where
  pub joint_names : List String
  pub interface_prefix : String

module _ {Double : Type 0} where
  abbrev pub export_gpio : Gpio Double → Exported Double
  export_gpio gpio = (io_prefix, gpio.name, real gpio.data_)

  -- The loop over the joints, from index `i` on.
  unfoldable pub export_joint_states :
      FriHardware Double → ℕ → List String → Option (List (Exported Double))
  export_joint_states hw i [] = some []
  export_joint_states hw i (name ∷ names) = do
    position ← get_elem? hw.position_states i
    torque ← get_elem? hw.torque_states i
    external ← get_elem? hw.ext_torque_states i
    commanded ← get_elem? hw.commanded_position_states i
    rest ← export_joint_states hw (suc i) names
    some (
        (name, hw_if_position, real position)
        ∷ (name, hw_if_effort, real torque)
        ∷ (name, hw_if_external_torque, real external)
        ∷ (name, hw_if_commanded_position, real commanded)
        ∷ rest)

  unfoldable pub export_robot_state : String → RobotState Double → List (Exported Double)
  export_robot_state interface_prefix state =
      let group = append interface_prefix fri_state_prefix in
      (group, "session_state", real state.session_state)
      ∷ (group, "connection_quality", real state.connection_quality)
      ∷ (group, "safety_state", real state.safety_state)
      ∷ (group, "command_mode", real state.command_mode)
      ∷ (group, control_mode_name, real state.control_mode)
      ∷ (group, "operation_mode", real state.operation_mode)
      ∷ (group, "drive_state", real state.drive_state)
      ∷ (group, "overlay_type", real state.overlay_type)
      ∷ (group, "tracking_performance", real state.tracking_performance)
      ∷ []

  unfoldable pub export_state_interfaces :
      Described → FriHardware Double → Option (List (Exported Double))
  unfolding export_joint_states export_robot_state
  export_state_interfaces described hw = do
    joints ← export_joint_states hw 0 described.joint_names
    let server = append described.interface_prefix state_prefix
    some (
        export_robot_state described.interface_prefix hw.robot_state
        ++ (map export_gpio hw.gpio_outputs
            ++ (joints ++ (server, server_state_name, integer hw.server_state) ∷ [])))

  unfoldable pub export_joint_commands :
      FriHardware Double → ℕ → List String → Option (List (Exported Double))
  export_joint_commands hw i [] = some []
  export_joint_commands hw i (name ∷ names) = do
    position ← get_elem? hw.position_commands i
    stiffness ← get_elem? hw.stiffness_commands i
    damping ← get_elem? hw.damping_commands i
    torque ← get_elem? hw.torque_commands i
    rest ← export_joint_commands hw (suc i) names
    some (
        (name, hw_if_position, real position)
        ∷ (name, hw_if_stiffness, real stiffness)
        ∷ (name, hw_if_damping, real damping)
        ∷ (name, hw_if_effort, real torque)
        ∷ rest)

  -- The count is the last that the controller has written.
  unfoldable pub export_command_interfaces :
      Described → ℕ → FriHardware Double → Option (List (Exported Double))
  unfolding export_joint_commands
  export_command_interfaces described count hw = do
    joints ← export_joint_commands hw 0 described.joint_names
    let group = append described.interface_prefix config_prefix
    some (
        (group, control_mode_name, integer hw.control_mode)
        ∷ (group, interpolation_count_name, integer count)
        ∷ (group, receive_multiplier_name, integer hw.receive_multiplier)
        ∷ (group, send_period_name, integer hw.send_period_ms)
        ∷ (map export_gpio hw.gpio_inputs ++ joints))
